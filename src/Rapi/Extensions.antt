-- ===== src/Rapi/Extensions.antt =====
-- internal/lambda/rapi/handler/agentregister.go, agentnext.go, agentiniterror.go and agentexiterror.go, and
-- the middleware of their routes (middleware/middleware.go, router.go): the Extensions API.
pub mod Registration
pub mod Laws
pub mod Called
pub mod Register
use lambda_runtime_init.Base.{
  ℕ, zero, suc, Bool, true, false, not, Option, none, some, List, [], ◌∷◌, String, str_eq,
  if◌then◌else◌, get_elem?,
}
use lambda_runtime_init.Core.Error.{
  Error, registration_service_off, agent_name_collision, too_many_extensions,
}
use lambda_runtime_init.Core.InitFlow.{InitFlow}
use lambda_runtime_init.Core.InvokeFlow.{InvokeFlow}
use lambda_runtime_init.Core.Thread.{Object, Outcome, returned, suspended}
use lambda_runtime_init.Core.Agent.{Event}
use lambda_runtime_init.Core.ExternalAgent.{ExternalAgent, validate_external_agent_event}
use lambda_runtime_init.Core.ExternalAgent.Methods as External
use lambda_runtime_init.Core.InternalAgent.{InternalAgent, validate_internal_agent_event}
use lambda_runtime_init.Core.InternalAgent.Methods as Internal
use lambda_runtime_init.Core.AgentsMap.{AgentRef}
use lambda_runtime_init.Core.Registrations.{
  Memory, RegistrationService, Created, created, failed, create_internal_agent,
}
use lambda_runtime_init.Core.Registrations.Queries.{
  find_external_agent_by_id, find_internal_agent_by_id, find_external_agent_by_name,
}
use lambda_runtime_init.Appctx.{ApplicationContext, store_first_fatal_error}
use lambda_runtime_init.Fatalerror.{agent_init_error, agent_exit_error}
use lambda_runtime_init.Rapi.Session.{
  Rendered, accepted, event, not_found, forbidden, internal_server_error, blocked, panicked, Times,
}

-- What the handlers of extensions work on.
pub record Extensions : Type 0 where
  pub memory : Memory
  pub service : RegistrationService
  pub app : ApplicationContext

abbrev pub invalid_extension_state : Rendered
invalid_extension_state = forbidden "Extension.InvalidExtensionState"

abbrev pub unknown_extension_identifier : Rendered
unknown_extension_identifier = forbidden "Extension.UnknownExtensionIdentifier"

-- A write through a pointer.
abbrev pub set_elem {ℓ} : {A : Type ℓ} → List A → ℕ → A → List A
set_elem [] n a = []
set_elem (x ∷ xs) zero a = a ∷ xs
set_elem (x ∷ xs) (suc n) a = x ∷ set_elem xs n a

abbrev save_flows : InitFlow → InvokeFlow → RegistrationService → RegistrationService
save_flows f g s = record s { init_flow = f; invoke_flow = g }

abbrev pub saved_external : ℕ → Extensions → Object ExternalAgent × Outcome → Extensions × Outcome
saved_external address e (o, out) = (
  record e {
    memory = record e.memory { externals = set_elem e.memory.externals address o.self };
    service = save_flows o.init_flow o.invoke_flow e.service;
  },
  out,
)

abbrev pub saved_internal : ℕ → Extensions → Object InternalAgent × Outcome → Extensions × Outcome
saved_internal address e (o, out) = (
  record e {
    memory = record e.memory { internals = set_elem e.memory.internals address o.self };
    service = save_flows o.init_flow o.invoke_flow e.service;
  },
  out,
)

-- A method of the agent at an address, with the service's flows; `none` for an address that dangles,
-- which cannot occur in Go.
unfoldable pub call_external :
    External.Call → Times → AgentRef → Extensions → Option (Extensions × Outcome)
unfolding External.call
call_external c t a e = elim (get_elem? e.memory.externals a.address) [
  | none ↦ none
  | some agent ↦ some (
      saved_external a.address e (
        External.call (λ _. false) c t.first t.second
          (record {
            self = agent;
            init_flow = e.service.init_flow;
            invoke_flow = e.service.invoke_flow;
          })))
]

unfoldable pub call_internal :
    Internal.Call → Times → AgentRef → Extensions → Option (Extensions × Outcome)
unfolding Internal.call
call_internal c t a e = elim (get_elem? e.memory.internals a.address) [
  | none ↦ none
  | some agent ↦ some (
      saved_internal a.address e (
        Internal.call c t.first t.second (record {
          self = agent;
          init_flow = e.service.init_flow;
          invoke_flow = e.service.invoke_flow;
        })))
]

-- The calls that both kinds of agent have.
pub data AgentCall : Type 0 where
  readies : AgentCall
  init_errors exit_errors : String → AgentCall

abbrev pub external : AgentCall → External.Call
external readies = External.readies
external (init_errors t) = External.init_errors t
external (exit_errors t) = External.exit_errors t

abbrev pub internal : AgentCall → Internal.Call
internal readies = Internal.readies
internal (init_errors t) = Internal.init_errors t
internal (exit_errors t) = Internal.exit_errors t

-- A refused transition is answered with 403.
abbrev pub on_success :
    Extensions
    → Option (Extensions × Outcome)
    → (Extensions → Extensions × Rendered)
    → Extensions × Rendered
on_success e none next = (e, panicked)
on_success e (some (e', returned (some x))) next = (e', invalid_extension_state)
on_success e (some (e', suspended r)) next = (e', blocked r)
on_success e (some (e', returned none)) next = next e'

-- An external agent is looked for first, then an internal one.
unfoldable pub with_agent :
    String
    → AgentCall
    → Times
    → (Extensions → Extensions × Rendered)
    → Extensions
    → Extensions × Rendered
unfolding find_external_agent_by_id find_internal_agent_by_id call_external call_internal
with_agent id c t next e = elim (find_external_agent_by_id e.service id) [
  | some a ↦ on_success e (call_external (external c) t a e) next
  | none ↦ elim (find_internal_agent_by_id e.service id) [
    | some a ↦ on_success e (call_internal (internal c) t a e) next
    | none ↦ (e, unknown_extension_identifier)
  ]
]

-- `rendered` says whether the event could be rendered.
unfoldable pub serve_agent_next : Bool → Option String → Times → Extensions → Extensions × Rendered
unfolding with_agent
serve_agent_next rendered none t e = (e, internal_server_error)
serve_agent_next rendered (some id) t e =
    with_agent id readies t (λ e. (e, if rendered then event else internal_server_error)) e

-- A goroutine of `serve_agent_next` that waits for its operator is woken, and goes on.
unfoldable pub wake_external : Times → AgentRef → Extensions → Option (Extensions × Outcome)
unfolding External.wake
wake_external t a e = elim (get_elem? e.memory.externals a.address) [
  | none ↦ none
  | some agent ↦ some (
      saved_external a.address e (
        External.wake t.first (record {
          self = agent;
          init_flow = e.service.init_flow;
          invoke_flow = e.service.invoke_flow;
        })))
]

unfoldable pub wake_internal : Times → AgentRef → Extensions → Option (Extensions × Outcome)
unfolding Internal.wake
wake_internal t a e = elim (get_elem? e.memory.internals a.address) [
  | none ↦ none
  | some agent ↦ some (
      saved_internal a.address e (
        Internal.wake t.first (record {
          self = agent;
          init_flow = e.service.init_flow;
          invoke_flow = e.service.invoke_flow;
        })))
]

unfoldable pub serve_agent_woken :
    Bool → Bool → Times → AgentRef → Extensions → Extensions × Rendered
unfolding wake_external wake_internal
serve_agent_woken is_external rendered t a e =
    on_success e (if is_external then wake_external t a e else wake_internal t a e)
      (λ e. (e, if rendered then event else internal_server_error))

abbrev pub store_fatal : List ℕ → Extensions → Extensions × Rendered
store_fatal err e = (record e { app = store_first_fatal_error err e.app }, accepted)

abbrev pub serve_agent_error :
    (String → AgentCall)
    → List ℕ
    → String
    → Option String
    → Times
    → Extensions
    → Extensions × Rendered
serve_agent_error c err error_type none t e = (e, internal_server_error)
serve_agent_error c err error_type (some id) t e =
    if str_eq error_type ""
    then (e, forbidden "Extension.MissingHeader")
    else with_agent id (c error_type) t (store_fatal err) e

unfoldable pub serve_agent_init_error :
    String → Option String → Times → Extensions → Extensions × Rendered
unfolding with_agent store_first_fatal_error
serve_agent_init_error = serve_agent_error init_errors agent_init_error

unfoldable pub serve_agent_exit_error :
    String → Option String → Times → Extensions → Extensions × Rendered
unfolding with_agent store_first_fatal_error
serve_agent_exit_error = serve_agent_error exit_errors agent_exit_error

-- `AgentUniqueIdentifierHeaderValidator`; `parse` is `uuid.Parse`, as a text.
unfoldable pub agent_unique_identifier_header_validator :
    (String → Option String)
    → String
    → (Option String → Extensions → Extensions × Rendered)
    → Extensions
    → Extensions × Rendered
agent_unique_identifier_header_validator parse header next e =
    if str_eq header ""
    then (e, forbidden "Extension.MissingExtensionIdentifier")
    else elim (parse header) [
      | none ↦ (e, forbidden "Extension.InvalidExtensionIdentifier")
      | some id ↦ next (some id) e
    ]

unfoldable pub allow_if_extensions_enabled :
    Bool → (Extensions → Extensions × Rendered) → Extensions → Extensions × Rendered
allow_if_extensions_enabled enabled next e = if enabled then next e else (e, not_found)
