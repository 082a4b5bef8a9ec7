-- ===== src/Rapid/Reset/Ends.antt =====
-- internal/lambda/rapid: a reset ends the invoke.
use lambda_runtime_init.Base.{ℕ, ◌≡◌, false, some, List, String, arith}
use lambda_runtime_init.Core.Error.{reset_received}
use lambda_runtime_init.Core.Gate.{passed}
use lambda_runtime_init.Core.Registrations.{Memory}
use lambda_runtime_init.Core.Registrations.Cancel.{AllAnswer, cancel_flows-first}
use lambda_runtime_init.Core.Registrations.Agents.{Call, run}
use lambda_runtime_init.Core.Registrations.Limits.{NoClear}
use lambda_runtime_init.Rapid.{Settings, Rapid}
use lambda_runtime_init.Rapid.Launch.{Launch}
use lambda_runtime_init.Rapid.Invoke.{InvokePc, invoke_ended, invoke_resumes}
use lambda_runtime_init.Rapid.Invoke.Failed.{invoke_resumes-failed}
use lambda_runtime_init.Rapid.Handlers.{new_invoke_failure_msg, handle_invoke_error}
use lambda_runtime_init.Rapid.Reset.{reset_cancels}

reset-answer :
    (c : Settings) (utf8 : String → List ℕ) (r : Rapid)
    → ((handle_invoke_error c utf8 reset_received r).reset_received ≡ c.extensions_enabled)
      × ((handle_invoke_error c utf8 reset_received r).request_reset ≡ c.extensions_enabled)
unfolding handle_invoke_error new_invoke_failure_msg
reset-answer c utf8 r = ground arith

-- A reset that comes while an invoke waits, where nothing was cancelled before: the invoke ends with
-- the error of the reset when it is woken, at whatever gate it waits, and whatever the registration
-- service is asked in between, other than to be cleared. Its failure says that a reset was received
-- if extensions are enabled, and only then asks for one.
pub reset-ends_invoke :
    (c : Settings) (r woken : Rapid) (h : Memory) (calls : List Call) (id : String) (l : Launch)
    (pc : InvokePc) (utf8 : String → List ℕ)
    → r.service.cancelled ≡ false
    → NoClear calls
    → woken.service ≡ (run (h, (reset_cancels r).service) calls).1
    → ((invoke_resumes c id l pc woken).1 ≡ invoke_ended (some reset_received))
      × ((handle_invoke_error c utf8 reset_received
            (invoke_resumes c id l pc woken).0).reset_received
          ≡ c.extensions_enabled)
      × ((handle_invoke_error c utf8 reset_received
            (invoke_resumes c id l pc woken).0).request_reset
          ≡ c.extensions_enabled)
unfolding reset_cancels
reset-ends_invoke c r woken h calls id l pc utf8 fresh n later =
    let all : AllAnswer (passed (some reset_received)) woken.service =
      rw later (cancel_flows-first (some reset_received) h r.service calls fresh n) in
    let (received, requested) = reset-answer c utf8 (invoke_resumes c id l pc woken).0 in
    ((invoke_resumes-failed c id l pc woken reset_received all).0, received, requested)
