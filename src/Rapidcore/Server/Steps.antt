-- ===== src/Rapidcore/Server/Steps.antt =====
-- Histories of the server: any order of the steps of its methods.
use lambda_runtime_init.Base.{ℕ, Bool, Option, List, [], ◌∷◌, String}
use lambda_runtime_init.Base.Int.{ℤ}
use lambda_runtime_init.Rapidcore.Server.{
  InvokeResponseMetrics, ErrorInvokeResponse, InitFailure, Server, Result, ok, Reservation, reserve,
  release, clear, set_runtime_state, ready,
}
use lambda_runtime_init.Rapidcore.Server.Send.{
  Delivery, Sent, send_response, send_error_response, send_init_error_response,
}
use lambda_runtime_init.Rapidcore.Server.Wait.{
  init, await_init_completion, await_initialized, fast_invoke, InvokeOutcome, invoke_finished,
  fast_invoke_ends, Select, await_release, reset, shutdown,
}

pub data Op : Type 0 where
  inits : ℤ → Op
  init_completes : Option InitFailure → Op
  awaits_initialized clears releases shuts_down runtime_is_ready : Op
  reserves : Reservation → Op
  invokes : ℕ → Bool → Bool → Op
  responds responds_error : String → Delivery → Op
  responds_init_error : ErrorInvokeResponse → Delivery → Op
  finishes : Delivery → InvokeOutcome → Op
  ends : Option InvokeResponseMetrics → Op
  awaits_release : Select → Op
  resets : Option InvokeResponseMetrics → String → Op

abbrev pub of_sent : Sent → Server × Result
of_sent r = (r.server, r.result)

-- `max` is `interop.MaxPayloadSize`.
unfoldable pub step : ℕ → Server → Op → Server × Result
unfolding init await_init_completion await_initialized clear release shutdown set_runtime_state
    reserve fast_invoke send_response send_error_response send_init_error_response invoke_finished
    fast_invoke_ends await_release reset
step max s (inits timeout) = (init timeout s, ok)
step max s (init_completes f) = (await_init_completion f s, ok)
step max s awaits_initialized = await_initialized s
step max s clears = (clear s, ok)
step max s releases = release s
step max s shuts_down = (shutdown s, ok)
step max s runtime_is_ready = (set_runtime_state ready s, ok)
step max s (reserves r) = reserve r s
step max s (invokes w direct already_written) = fast_invoke w direct already_written s
step max s (responds id d) = of_sent (send_response max id d s)
step max s (responds_error id d) = of_sent (send_error_response max id d s)
step max s (responds_init_error e d) = of_sent (send_init_error_response max e d s)
step max s (finishes d outcome) = invoke_finished max d outcome s
step max s (ends m) = fast_invoke_ends m s
step max s (awaits_release c) = await_release c s
step max s (resets m e) = reset m e s

unfoldable pub run : ℕ → Server → List Op → Server
run max s [] = s
run max s (o ∷ os) = run max (step max s o).0 os
