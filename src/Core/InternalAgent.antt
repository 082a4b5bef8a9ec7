-- ===== src/Core/InternalAgent.antt =====
-- internal/lambda/core/internalagent.go and internalagent_states.go: an internal extension.
-- `now` and `later` are the readings of the clock, in the order in which a method takes them.
pub mod Methods
pub mod Final
pub mod Diagram
pub mod Register
use lambda_runtime_init.Base.{
  ℕ, Bool, true, false, Option, none, some, List, [], ◌∷◌, String, if◌then◌else◌,
}
use lambda_runtime_init.Core.Error.{
  Error, not_allowed, concurrent_state_modification, invalid_event_type,
  event_not_supported_for_internal_agent,
}
use lambda_runtime_init.Core.InitFlow
use lambda_runtime_init.Core.InvokeFlow
use lambda_runtime_init.Core.Thread.{
  ManagedThread, new_managed_thread, suspend_unsafe, Object, to_running, Outcome, returned,
  suspended, Action, ◌>>◌, method, fail, modify, init_call_ignoring, invoke_call_ignoring, stop_on,
}
use lambda_runtime_init.Core.Thread
use lambda_runtime_init.Core.Agent.{Event, invoke_event, shutdown_event, other_event, add_event}

pub data InternalAgentState : Type 0 where
  started registered ready running : InternalAgentState
  init_error exit_error : InternalAgentState

-- `id` is the text of the UUID; `events` are the keys of the map.
pub record InternalAgent : Type 0 where
  pub name : String
  pub id : String
  pub events : List Event
  pub managed_thread : ManagedThread
  pub current_state : InternalAgentState
  pub state_last_modified : ℕ
  pub error_type : String

unfoldable pub state_name : InternalAgentState → String
state_name started = "Started"
state_name registered = "Registered"
state_name ready = "Ready"
state_name running = "Running"
state_name init_error = "InitError"
state_name exit_error = "ExitError"

unfoldable pub set_state_unsafe : InternalAgentState → ℕ → InternalAgent → InternalAgent
set_state_unsafe state now s = record s { current_state = state; state_last_modified = now }

-- `uuid.New()` is the caller's `id`.
unfoldable pub new_internal_agent : String → String → ℕ → InternalAgent
unfolding new_managed_thread set_state_unsafe
new_internal_agent name id now = set_state_unsafe started now (record {
  name = name;
  id = id;
  events = [];
  managed_thread = new_managed_thread;
  current_state = started;
  state_last_modified = 0;
  error_type = "";
})

unfoldable pub release : InternalAgent → InternalAgent
unfolding Thread.release
release s = record s { managed_thread = Thread.release s.managed_thread }

unfoldable pub validate_internal_agent_event : Event → Option Error
validate_internal_agent_event invoke_event = none
validate_internal_agent_event shutdown_event = some event_not_supported_for_internal_agent
validate_internal_agent_event _ = some invalid_event_type

unfoldable pub subscribe_unsafe : Event → InternalAgent → InternalAgent × Option Error
unfolding validate_internal_agent_event add_event
subscribe_unsafe e s = elim (validate_internal_agent_event e) [
  | some err ↦ (s, some err)
  | none ↦ (record s { events = add_event s.events e }, none)
]

-- The loop of `Register`: it stops at the first event that is refused.
unfoldable pub subscribe_all : List Event → InternalAgent → InternalAgent × Option Error
subscribe_all [] s = (s, none)
subscribe_all (e ∷ es) s =
    let (s', err) = subscribe_unsafe e s in
    let rest = subscribe_all es s' in elim err [ some x ↦ (s', some x) | none ↦ rest ]

-- The methods that a state inherits from `disallowEverything`.
unfoldable pub disallow_everything : Action InternalAgent
disallow_everything = fail not_allowed

abbrev set_state : InternalAgentState → ℕ → Action InternalAgent
set_state state now = modify (set_state_unsafe state now)

abbrev set_error_type : String → Action InternalAgent
set_error_type t = modify (λ s. record s { error_type = t })

abbrev subscribe_each : List Event → Action InternalAgent
subscribe_each es o =
    let (agent, e) = subscribe_all es o.self in (record o { self = agent }, stop_on e)

abbrev is_ready : InternalAgentState → Bool
is_ready ready = true
is_ready _ = false

unfoldable pub after_suspend : ℕ → Action InternalAgent
unfolding set_state_unsafe
after_suspend now o =
    if is_ready o.self.current_state
    then set_state running now o
    else fail concurrent_state_modification o

-- `SuspendUnsafe` and what follows it; also what a goroutine does that waits there and is woken.
unfoldable pub suspend : ℕ → Action InternalAgent
unfolding suspend_unsafe after_suspend
suspend now o = elim (suspend_unsafe o.self.managed_thread) [
  | none ↦ (o, some (suspended to_running))
  | some thread ↦ after_suspend now (record o { self = record o.self { managed_thread = thread } })
]

unfoldable pub register_started : List Event → ℕ → Action InternalAgent
unfolding set_state_unsafe
register_started events now = do subscribe_each events; set_state registered now

unfoldable pub ready_registered : ℕ → ℕ → Action InternalAgent
unfolding set_state_unsafe suspend InitFlow.agent_ready
ready_registered now later = do
  set_state ready now
  init_call_ignoring InitFlow.agent_ready
  suspend later

unfoldable pub init_error_registered : String → ℕ → Action InternalAgent
unfolding set_state_unsafe
init_error_registered t now = do set_state init_error now; set_error_type t

unfoldable pub exit_error_registered : String → ℕ → Action InternalAgent
unfolding set_state_unsafe
exit_error_registered t now = do set_state exit_error now; set_error_type t

unfoldable pub exit_error_ready : String → ℕ → Action InternalAgent
unfolding set_state_unsafe
exit_error_ready t now = do set_state exit_error now; set_error_type t

unfoldable pub ready_running : ℕ → ℕ → Action InternalAgent
unfolding set_state_unsafe suspend InvokeFlow.agent_ready
ready_running now later = do
  set_state ready now
  invoke_call_ignoring InvokeFlow.agent_ready
  suspend later

unfoldable pub exit_error_running : String → ℕ → Action InternalAgent
unfolding set_state_unsafe
exit_error_running t now = do set_state exit_error now; set_error_type t

-- Only the first error that is submitted counts.
unfoldable pub init_error_init_error : Action InternalAgent
init_error_init_error o = (o, none)

unfoldable pub exit_error_exit_error : Action InternalAgent
exit_error_exit_error o = (o, none)
