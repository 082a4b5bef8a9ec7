-- ===== src/Tests/Server.antt =====
-- Concrete inputs for internal/lambda/rapidcore/server.go.
use lambda_runtime_init.Rapidcore.Server.Spec
use lambda_runtime_init.Base.{
  ◌+◌, ◌≤◌, ◌≡◌, refl, sym, ◌∙◌, ◌≢◌, true, false, none, some, List, [], ◌∷◌,
}
use lambda_runtime_init.Base.Int.{pos}
use lambda_runtime_init.Rapidcore.Server.{
  ServerError, error, invoke_timed_out, new_server, Reservation, idle, ok, waits,
  set_new_invoke_context,
}
use lambda_runtime_init.Rapidcore.Server.Send.{Delivery, send_response}
use lambda_runtime_init.Rapidcore.Server.Wait.{reads_cancel}
use lambda_runtime_init.Rapidcore.Server.Invoke.{Reset, timed_out, invoke_ends}
use lambda_runtime_init.Rapidcore.Server.Steps.{
  Op, inits, init_completes, awaits_initialized, reserves, invokes, responds, responds_error,
  releases, step, run,
}
use lambda_runtime_init.Rapidcore.Server.Spec.{Call, phase, serve, Spec, free, serve-Spec}
use lambda_runtime_init.Rapidcore.Server.Outcomes.{
  replies-le-reservations, invoke_ends-free, total, delivered, reservations, unanswered,
}

abbrev reservation : Reservation
reservation = record {
  id = "invoke-1";
  trace_id = "t";
  lambda_segment_id = "s";
  new_invoke_id = "u";
  new_reservation_token = "v";
}

abbrev pub body : Delivery
body = record {
  read = some (104 ∷ 105 ∷ []);
  written = some 2;
  start_time = pos 1;
  finish_time = pos 2;
  direct_error = none;
  direct_metrics = none;
}

-- A server that was initialised, and whose invoke is reserved and has its stream.
abbrev pub invoked : List Op
invoked =
    inits (pos 9)
    ∷ init_completes none
    ∷ awaits_initialized
    ∷ reserves reservation
    ∷ invokes 7 false false
    ∷ []

serve-Spec_example :
    let s = run 10 new_server invoked in
    Spec
      (phase s)
      (Spec.replies "invoke-1" body true)
      (phase (serve 10 s (Spec.replies "invoke-1" body true)).0)
      (serve 10 s (Spec.replies "invoke-1" body true)).1
serve-Spec_example = serve-Spec 10 (run 10 new_server invoked) (Spec.replies "invoke-1" body true)

abbrev history : List Op
history =
    inits (pos 9)
    ∷ init_completes none
    ∷ awaits_initialized
    ∷ reserves reservation
    ∷ invokes 7 false false
    ∷ responds "other" body
    ∷ responds "invoke-1" body
    ∷ responds "invoke-1" body
    ∷ responds_error "invoke-1" body
    ∷ releases
    ∷ reserves reservation
    ∷ []

replies-le-reservations_example :
    total delivered 10 new_server history + unanswered (run 10 new_server history)
    ≤ total reservations 10 new_server history + unanswered new_server
replies-le-reservations_example = replies-le-reservations 10 new_server history

-- One reply was delivered, for two reservations.
history_counts : total delivered 10 new_server history ≡ 1
unfolding run new_server send_response step
history_counts = refl

abbrev reset_now : Reset
reset_now = record { interrupted = none; error_type = "" }

error-differs : {e : ServerError} → error e ≢ waits
error-differs h = cc

ended :
    (invoke_ends (timed_out reset_now reads_cancel reset_now) (run 10 new_server invoked)).1
    ≡ error invoke_timed_out
unfolding invoke_ends run step new_server
ended = refl

ends :
    (invoke_ends (timed_out reset_now reads_cancel reset_now) (run 10 new_server invoked)).1 ≢ waits
ends h = error-differs (sym ended ∙ h)

invoke_ends-free_example :
    let s' =
      (invoke_ends (timed_out reset_now reads_cancel reset_now) (run 10 new_server invoked)).0 in
    (phase s' ≡ free)
    × (s'.rapid_phase ≡ idle)
    × ((set_new_invoke_context "b" reservation s').1 ≡ ok)
invoke_ends-free_example =
    invoke_ends-free (timed_out reset_now reads_cancel reset_now) (run 10 new_server invoked) "b"
      reservation ends
