-- ===== src/Core/Runtime.antt =====
-- internal/lambda/core/states.go: the state machine of the language runtime.
-- `now` and `later` are the readings of the clock, in the order in which a method takes them.
pub mod Methods
pub mod System
pub mod Diagram
pub mod Progress
pub mod Cycle
use lambda_runtime_init.Base.{
  ℕ, zero, Bool, true, false, not, ◌&&◌, ◌||◌, Option, none, some, String, if◌then◌else◌, leb, ◌==◌,
  ◌/◌,
}
use lambda_runtime_init.Core.Error.{
  Error, FunctionError, not_allowed, concurrent_state_modification, restore_hook_user_error,
}
use lambda_runtime_init.Core.InitFlow.{InitFlow}
use lambda_runtime_init.Core.InitFlow
use lambda_runtime_init.Core.InvokeFlow.{InvokeFlow}
use lambda_runtime_init.Core.InvokeFlow
use lambda_runtime_init.Core.Thread.{
  ManagedThread, new_managed_thread, suspend_unsafe, Object, Resume, to_running, to_restoring,
  Outcome, returned, suspended, Action, ◌>>◌, method, fail, modify, init_call, invoke_call,
}
use lambda_runtime_init.Core.Thread

-- The state objects that a runtime can point to.
pub data RuntimeState : Type 0 where
  started init_error ready running restore_ready restoring : RuntimeState
  invocation_response invocation_error_response response_sent restore_error : RuntimeState

-- Times are nanoseconds; 0 is the zero time.
pub record Runtime : Type 0 where
  pub managed_thread : ManagedThread
  pub current_state : RuntimeState
  pub state_last_modified : ℕ
  pub response_time : ℕ

unfoldable pub name : RuntimeState → String
name started = "Started"
name init_error = "InitError"
name ready = "Ready"
name running = "Running"
name restore_ready = "RestoreReady"
name restoring = "Restoring"
name invocation_response = "InvocationResponse"
name invocation_error_response = "InvocationErrorResponse"
name response_sent = "RuntimeResponseSentState"
name restore_error = "RuntimeRestoreErrorState"

unfoldable pub set_state_unsafe : RuntimeState → ℕ → Runtime → Runtime
set_state_unsafe state now s = record s { current_state = state; state_last_modified = now }

unfoldable pub release : Runtime → Runtime
unfolding Thread.release
release s = record s { managed_thread = Thread.release s.managed_thread }

-- The methods that a state inherits from `disallowEveryTransitionByDefault`.
unfoldable pub disallow_every_transition_by_default : Action Runtime
disallow_every_transition_by_default = fail not_allowed

abbrev pub set_state : RuntimeState → ℕ → Action Runtime
set_state state now = modify (set_state_unsafe state now)

-- `s.runtime.currentState != A && s.runtime.currentState != B`, negated.
abbrev pub is_expected : Resume → RuntimeState → Bool
is_expected to_running ready = true
is_expected to_running running = true
is_expected to_restoring restore_ready = true
is_expected to_restoring restoring = true
is_expected _ _ = false

abbrev pub target : Resume → RuntimeState
target to_running = running
target to_restoring = restoring

-- What follows `SuspendUnsafe`: the state must be one of two, or it was changed meanwhile.
unfoldable pub after_suspend : Resume → ℕ → Action Runtime
unfolding set_state_unsafe
after_suspend r now o =
    if is_expected r o.self.current_state
    then set_state (target r) now o
    else fail concurrent_state_modification o

-- `SuspendUnsafe` and what follows it; also what a goroutine does that waits there and is woken.
unfoldable pub suspend : Resume → ℕ → Action Runtime
unfolding suspend_unsafe after_suspend
suspend r now o = elim (suspend_unsafe o.self.managed_thread) [
  | none ↦ (o, some (suspended r))
  | some thread ↦
      after_suspend r now (record o { self = record o.self { managed_thread = thread } })
]

unfoldable pub ready_started : ℕ → ℕ → Action Runtime
unfolding set_state_unsafe suspend InitFlow.runtime_restore_ready InitFlow.runtime_ready
ready_started now later = do
  set_state ready now
  init_call InitFlow.runtime_restore_ready
  init_call InitFlow.runtime_ready
  suspend to_running later

unfoldable pub restore_ready_started : ℕ → ℕ → Action Runtime
unfolding set_state_unsafe suspend InitFlow.runtime_restore_ready
restore_ready_started now later = do
  set_state restore_ready now
  init_call InitFlow.runtime_restore_ready
  suspend to_restoring later

unfoldable pub init_error_started : ℕ → Action Runtime
unfolding set_state_unsafe
init_error_started now = set_state init_error now

unfoldable pub ready_restoring : ℕ → ℕ → Action Runtime
unfolding set_state_unsafe suspend InitFlow.runtime_ready
ready_restoring now later = do
  set_state ready now
  init_call InitFlow.runtime_ready
  suspend to_running later

abbrev pub cancel_init_flow : Error → Action Runtime
cancel_init_flow e o =
    (record o { init_flow = InitFlow.cancel_with_error o.init_flow (some e) }, none)

unfoldable pub restore_error_restoring : FunctionError → ℕ → Action Runtime
unfolding set_state_unsafe InitFlow.cancel_with_error
restore_error_restoring user_error now = do
  set_state restore_error now
  cancel_init_flow (restore_hook_user_error user_error)

unfoldable pub ready_ready : ℕ → Action Runtime
unfolding suspend
ready_ready now = suspend to_running now

unfoldable pub ready_running : Action Runtime
ready_running o = (o, none)

unfoldable pub invocation_response_running : ℕ → Action Runtime
unfolding set_state_unsafe
invocation_response_running now = set_state invocation_response now

unfoldable pub invocation_error_response_running : ℕ → Action Runtime
unfolding set_state_unsafe
invocation_error_response_running now = set_state invocation_error_response now

unfoldable pub response_sent_response : ℕ → Action Runtime
unfolding set_state_unsafe InvokeFlow.runtime_response
response_sent_response now = do set_state response_sent now; invoke_call InvokeFlow.runtime_response

unfoldable pub response_sent_error_response : ℕ → Action Runtime
unfolding set_state_unsafe InvokeFlow.runtime_response
response_sent_error_response now = do
  set_state response_sent now
  invoke_call InvokeFlow.runtime_response

unfoldable pub ready_response_sent : ℕ → ℕ → Action Runtime
unfolding set_state_unsafe suspend InvokeFlow.runtime_ready
ready_response_sent now later = do
  set_state ready now
  invoke_call InvokeFlow.runtime_ready
  suspend to_running later

-- `Runtime`'s methods: each delegates to the current state.
unfoldable pub ready_in : RuntimeState → ℕ → ℕ → Action Runtime
unfolding ready_started ready_restoring ready_ready ready_running ready_response_sent
    disallow_every_transition_by_default
ready_in started now later = ready_started now later
ready_in restoring now later = ready_restoring now later
ready_in ready now later = ready_ready now
ready_in running now later = ready_running
ready_in response_sent now later = ready_response_sent now later
ready_in _ now later = disallow_every_transition_by_default

unfoldable pub restore_ready_in : RuntimeState → ℕ → ℕ → Action Runtime
unfolding restore_ready_started disallow_every_transition_by_default
restore_ready_in started now later = restore_ready_started now later
restore_ready_in _ now later = disallow_every_transition_by_default

unfoldable pub init_error_in : RuntimeState → ℕ → Action Runtime
unfolding init_error_started disallow_every_transition_by_default
init_error_in started now = init_error_started now
init_error_in _ now = disallow_every_transition_by_default

unfoldable pub invocation_response_in : RuntimeState → ℕ → Action Runtime
unfolding invocation_response_running disallow_every_transition_by_default
invocation_response_in running now = invocation_response_running now
invocation_response_in _ now = disallow_every_transition_by_default

unfoldable pub invocation_error_response_in : RuntimeState → ℕ → Action Runtime
unfolding invocation_error_response_running disallow_every_transition_by_default
invocation_error_response_in running now = invocation_error_response_running now
invocation_error_response_in _ now = disallow_every_transition_by_default

unfoldable pub response_sent_in : RuntimeState → ℕ → Action Runtime
unfolding response_sent_response response_sent_error_response disallow_every_transition_by_default
response_sent_in invocation_response now = response_sent_response now
response_sent_in invocation_error_response now = response_sent_error_response now
response_sent_in _ now = disallow_every_transition_by_default

unfoldable pub restore_error_in : RuntimeState → FunctionError → ℕ → Action Runtime
unfolding restore_error_restoring disallow_every_transition_by_default
restore_error_in restoring user_error now = restore_error_restoring user_error now
restore_error_in _ user_error now = disallow_every_transition_by_default
