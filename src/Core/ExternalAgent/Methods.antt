-- ===== src/Core/ExternalAgent/Methods.antt =====
-- internal/lambda/core/externalagent.go: the methods of `ExternalAgent`, which lock the thread and
-- delegate to the current state, and histories of their calls.
use lambda_runtime_init.Base.{ℕ, zero, suc, Bool, Option, List, [], ◌∷◌, String}
use lambda_runtime_init.Core.Error.{Error}
use lambda_runtime_init.Core.InitFlow.{InitFlow}
use lambda_runtime_init.Core.InvokeFlow.{InvokeFlow}
use lambda_runtime_init.Core.Thread.{Object, Outcome, returned, suspended, Action, method}
use lambda_runtime_init.Core.Agent.{Event, has_event}
use lambda_runtime_init.Core.ExternalAgent.{
  ExternalAgentState, started, registered, ready, running, init_error, exit_error, ExternalAgent,
  disallow_everything, register_started, launch_error_started, ready_registered, ready_running,
  init_error_registered, exit_error_registered, exit_error_ready, exit_error_running,
  shutdown_failed_running, exited_running, init_error_init_error, exit_error_exit_error, suspend,
  release,
}

-- A method call; the last argument of `launch_errors` is what `os.IsPermission` answers.
pub data Call : Type 0 where
  registers : List Event → Call
  readies : Call
  init_errors exit_errors : String → Call
  shutdowns_failed exits : Call
  launch_errors : Error → Call

-- The method of the current state.
unfoldable pub delegate : (Error → Bool) → ExternalAgentState → Call → ℕ → ℕ → Action ExternalAgent
unfolding disallow_everything register_started launch_error_started ready_registered ready_running
    init_error_registered exit_error_registered exit_error_ready exit_error_running
    shutdown_failed_running exited_running init_error_init_error exit_error_exit_error
delegate p started (registers es) now later = register_started es now
delegate p started (launch_errors e) now later = launch_error_started p e now
delegate p registered readies now later = ready_registered now later
delegate p registered (init_errors t) now later = init_error_registered t now
delegate p registered (exit_errors t) now later = exit_error_registered t now
delegate p ready (exit_errors t) now later = exit_error_ready t now
delegate p running readies now later = ready_running now later
delegate p running (exit_errors t) now later = exit_error_running t now
delegate p running shutdowns_failed now later = shutdown_failed_running now
delegate p running exits now later = exited_running now
delegate p init_error (init_errors t) now later = init_error_init_error
delegate p exit_error (exit_errors t) now later = exit_error_exit_error
delegate p _ _ now later = disallow_everything

unfoldable pub call :
    (Error → Bool) → Call → ℕ → ℕ → Object ExternalAgent → Object ExternalAgent × Outcome
unfolding delegate
call p c now later o = method (delegate p o.self.current_state c now later) o

unfoldable pub wake : ℕ → Object ExternalAgent → Object ExternalAgent × Outcome
unfolding suspend
wake now o = method (suspend now) o

unfoldable pub is_subscribed : ExternalAgent → Event → Bool
unfolding has_event
is_subscribed s e = has_event s.events e

-- `others` is whatever the other parties do to the shared flows in between.
pub data Step : Type 0 where
  calls : Call → ℕ → ℕ → Step
  wakes : ℕ → Step
  releases : Step
  others : InitFlow → InvokeFlow → Step

-- The object, and how many goroutines wait on its operator condition.
pub record System : Type 0 where
  pub object : Object ExternalAgent
  pub waiting : ℕ

pub data Reply : Type 0 where
  pending : Reply
  replied : Option Error → Reply

abbrev pub after_call : ℕ → Object ExternalAgent × Outcome → System × Reply
after_call n (o, returned e) = (record { object = o; waiting = n }, replied e)
after_call n (o, suspended r) = (record { object = o; waiting = suc n }, pending)

abbrev pub after_wake : ℕ → Object ExternalAgent × Outcome → System × Reply
after_wake n (o, returned e) = (record { object = o; waiting = n }, replied e)
after_wake n (o, suspended r) = (record { object = o; waiting = suc n }, pending)

unfoldable pub step : (Error → Bool) → System → Step → System × Reply
unfolding call wake release
step p s (calls c now later) = after_call s.waiting (call p c now later s.object)
step p s (wakes now) = elim s.waiting [
  | zero ↦ (s, pending)
  | suc n ↦ after_wake n (wake now s.object)
]
step p s releases =
    (record s { object = record s.object { self = release s.object.self } }, pending)
step p s (others f g) =
    (record s { object = record s.object { init_flow = f; invoke_flow = g } }, pending)

unfoldable pub run : (Error → Bool) → System → List Step → System
run p s [] = s
run p s (e ∷ es) = run p (step p s e).0 es
