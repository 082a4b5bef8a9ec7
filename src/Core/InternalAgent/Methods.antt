-- ===== src/Core/InternalAgent/Methods.antt =====
-- internal/lambda/core/internalagent.go: the methods of `InternalAgent`, which lock the thread and
-- delegate to the current state, and histories of their calls.
use lambda_runtime_init.Base.{ℕ, zero, suc, Bool, Option, List, [], ◌∷◌, String}
use lambda_runtime_init.Core.Error.{Error}
use lambda_runtime_init.Core.InitFlow.{InitFlow}
use lambda_runtime_init.Core.InvokeFlow.{InvokeFlow}
use lambda_runtime_init.Core.Thread.{Object, Outcome, returned, suspended, Action, method}
use lambda_runtime_init.Core.Agent.{Event, has_event}
use lambda_runtime_init.Core.InternalAgent.{
  InternalAgentState, started, registered, ready, running, init_error, exit_error, InternalAgent,
  disallow_everything, register_started, ready_registered, ready_running, init_error_registered,
  exit_error_registered, exit_error_ready, exit_error_running, init_error_init_error,
  exit_error_exit_error, suspend, release,
}

-- A method call.
pub data Call : Type 0 where
  registers : List Event → Call
  readies : Call
  init_errors exit_errors : String → Call

-- The method of the current state.
unfoldable pub delegate : InternalAgentState → Call → ℕ → ℕ → Action InternalAgent
unfolding disallow_everything register_started ready_registered ready_running init_error_registered
    exit_error_registered exit_error_ready exit_error_running init_error_init_error
    exit_error_exit_error
delegate started (registers es) now later = register_started es now
delegate registered readies now later = ready_registered now later
delegate registered (init_errors t) now later = init_error_registered t now
delegate registered (exit_errors t) now later = exit_error_registered t now
delegate ready (exit_errors t) now later = exit_error_ready t now
delegate running readies now later = ready_running now later
delegate running (exit_errors t) now later = exit_error_running t now
delegate init_error (init_errors t) now later = init_error_init_error
delegate exit_error (exit_errors t) now later = exit_error_exit_error
delegate _ _ now later = disallow_everything

unfoldable pub call : Call → ℕ → ℕ → Object InternalAgent → Object InternalAgent × Outcome
unfolding delegate
call c now later o = method (delegate o.self.current_state c now later) o

unfoldable pub wake : ℕ → Object InternalAgent → Object InternalAgent × Outcome
unfolding suspend
wake now o = method (suspend now) o

unfoldable pub is_subscribed : InternalAgent → Event → Bool
unfolding has_event
is_subscribed s e = has_event s.events e

-- `others` is whatever the other parties do to the shared flows in between.
pub data Step : Type 0 where
  calls : Call → ℕ → ℕ → Step
  wakes : ℕ → Step
  releases : Step
  others : InitFlow → InvokeFlow → Step

-- The object, and how many goroutines wait on its operator condition.
pub record System : Type 0 where
  pub object : Object InternalAgent
  pub waiting : ℕ

pub data Reply : Type 0 where
  pending : Reply
  replied : Option Error → Reply

abbrev pub after_call : ℕ → Object InternalAgent × Outcome → System × Reply
after_call n (o, returned e) = (record { object = o; waiting = n }, replied e)
after_call n (o, suspended r) = (record { object = o; waiting = suc n }, pending)

abbrev pub after_wake : ℕ → Object InternalAgent × Outcome → System × Reply
after_wake n (o, returned e) = (record { object = o; waiting = n }, replied e)
after_wake n (o, suspended r) = (record { object = o; waiting = suc n }, pending)

unfoldable pub step : System → Step → System × Reply
unfolding call wake release
step s (calls c now later) = after_call s.waiting (call c now later s.object)
step s (wakes now) = elim s.waiting [
  | zero ↦ (s, pending)
  | suc n ↦ after_wake n (wake now s.object)
]
step s releases = (record s { object = record s.object { self = release s.object.self } }, pending)
step s (others f g) =
    (record s { object = record s.object { init_flow = f; invoke_flow = g } }, pending)

unfoldable pub run : System → List Step → System
run s [] = s
run s (e ∷ es) = run (step s e).0 es
