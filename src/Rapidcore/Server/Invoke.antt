-- ===== src/Rapidcore/Server/Invoke.antt =====
-- internal/lambda/rapidcore/server.go: how `Invoke` ends.
use lambda_runtime_init.Base.{Option, none, some, String}
use lambda_runtime_init.Rapidcore.Server.{
  ServerError, init_done_failed, invoke_done_failed, release_reservation_done, invoke_timed_out,
  init_not_started, InvokeResponseMetrics, Server, Result, ok, panics, waits, error, release,
}
use lambda_runtime_init.Rapidcore.Server.Wait.{Select, await_release, reset}

-- A reset: the metrics of a response that it interrupts, and the sandbox's answer.
pub record Reset : Type 0 where
  pub interrupted : Option InvokeResponseMetrics
  pub error_type : String

abbrev reset_and : Reset → ServerError → Server → Server × Result
reset_and r e s = ((reset r.interrupted r.error_type s).0, error e)

-- What follows `AwaitRelease` in the goroutine: a failure resets, and the end of the reservation, by
-- a reset, is no error.
abbrev after_release : Reset → Server × Result → Server × Result
after_release r (s, ok) = (s, ok)
after_release r (s, panics) = (s, panics)
after_release r (s, waits) = (s, waits)
after_release r (s, error init_done_failed) = reset_and r init_done_failed s
after_release r (s, error invoke_done_failed) = reset_and r invoke_done_failed s
after_release r (s, error release_reservation_done) = (s, ok)
after_release r (s, error e) = (s, error e)

-- Which channel the last `select` of `Invoke` reads: that of the timeout, and then what the goroutine
-- reads, or one of the goroutine.
pub data InvokeEnd : Type 0 where
  timed_out : Reset → Select → Reset → InvokeEnd
  released : Select → Reset → InvokeEnd

abbrev after_success : Server × Result → Server × Result
after_success (s, ok) = ((release s).0, ok)
after_success (s, panics) = (s, panics)
after_success (s, waits) = (s, waits)
after_success (s, error e) = (s, error e)

-- Whatever the goroutine ends with, the error is that of the timeout.
abbrev after_timeout : Server × Result → Server × Result
after_timeout (s, ok) = (s, error invoke_timed_out)
after_timeout (s, error e) = (s, error invoke_timed_out)
after_timeout (s, panics) = (s, panics)
after_timeout (s, waits) = (s, waits)

unfoldable pub invoke_ends : InvokeEnd → Server → Server × Result
unfolding reset await_release release
invoke_ends (timed_out r c r') s =
    after_timeout (after_release r' (await_release c (reset r.interrupted r.error_type s).0))
invoke_ends (released c r) s = after_success (after_release r (await_release c s))

-- `Invoke` needs an `Init` before.
unfoldable pub invoke_starts : Server → Result
invoke_starts s = elim s.init_failures [ none ↦ error init_not_started | some _ ↦ ok ]
