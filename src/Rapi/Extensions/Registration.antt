-- ===== src/Rapi/Extensions/Registration.antt =====
-- internal/lambda/rapi/handler/agentregister.go: the registration of an extension.
use lambda_runtime_init.Base.{
  Bool, true, false, Option, none, some, List, [], ◌∷◌, String, str_eq, if◌then◌else◌,
}
use lambda_runtime_init.Core.Error.{
  Error, registration_service_off, agent_name_collision, too_many_extensions,
}
use lambda_runtime_init.Core.Agent.{Event}
use lambda_runtime_init.Core.ExternalAgent.{validate_external_agent_event}
use lambda_runtime_init.Core.ExternalAgent.Methods as External
use lambda_runtime_init.Core.InternalAgent.{validate_internal_agent_event}
use lambda_runtime_init.Core.InternalAgent.Methods as Internal
use lambda_runtime_init.Core.AgentsMap.{AgentRef}
use lambda_runtime_init.Core.Registrations.{
  Memory, RegistrationService, Created, created, failed, create_internal_agent,
}
use lambda_runtime_init.Core.Registrations.Queries.{find_external_agent_by_name}
use lambda_runtime_init.Rapi.Session.{Rendered, event, forbidden, internal_server_error, Times}
use lambda_runtime_init.Rapi.Extensions.{
  Extensions, call_external, call_internal, on_success, invalid_extension_state,
}

-- The body of a registration as `json.Unmarshal` gives it: `none` if it cannot be read or parsed.
pub record RegisterBody : Type 0 where
  pub events : List Event
  pub configuration_keys : List String

abbrev is_empty {ℓ} : {A : Type ℓ} → List A → Bool
is_empty [] = true
is_empty (_ ∷ _) = false

unfoldable pub parse_register : Option RegisterBody → Option (List Event)
parse_register none = none
parse_register (some b) = if is_empty b.configuration_keys then some b.events else none

abbrev pub all_valid : (Event → Option Error) → List Event → Bool
all_valid validate [] = true
all_valid validate (x ∷ xs) =
    let rest = all_valid validate xs in elim (validate x) [ none ↦ rest | some e ↦ false ]

abbrev pub registered_answer : Extensions → Extensions × Rendered
registered_answer e = (e, event)

unfoldable pub register_external_agent :
    AgentRef → List Event → Times → Extensions → Extensions × Rendered
unfolding validate_external_agent_event call_external
register_external_agent a events t e =
    if all_valid validate_external_agent_event events
    then on_success e (call_external (External.registers events) t a e) registered_answer
    else (e, forbidden "Extension.InvalidEventType")

abbrev pub creation_error : Error → Rendered
creation_error registration_service_off = forbidden "Extension.RegistrationClosed"
creation_error agent_name_collision = invalid_extension_state
creation_error too_many_extensions = forbidden "Extension.TooManyExtensions"
creation_error _ = internal_server_error

abbrev pub after_creation :
    List Event → Times → Extensions → Memory × RegistrationService × Created → Extensions × Rendered
after_creation events t e (h, s, failed err) =
    (record e { memory = h; service = s }, creation_error err)
after_creation events t e (h, s, created a) =
    let e' : Extensions = record e { memory = h; service = s } in
    let t' : Times = record { first = t.second; second = t.third; third = t.third } in
    on_success e' (call_internal (Internal.registers events) t' a e') registered_answer

-- `id` is the UUID that is made.
unfoldable pub register_internal_agent :
    String → String → List Event → Times → Extensions → Extensions × Rendered
unfolding validate_internal_agent_event create_internal_agent call_internal
register_internal_agent name id events t e =
    if all_valid validate_internal_agent_event events
    then after_creation events t e (create_internal_agent name id t.first e.memory e.service)
    else (e, forbidden "Extension.InvalidEventType")

unfoldable pub serve_agent_register :
    String → String → Option RegisterBody → Times → Extensions → Extensions × Rendered
unfolding parse_register find_external_agent_by_name register_external_agent register_internal_agent
serve_agent_register name id body t e =
    if str_eq name ""
    then (e, forbidden "Extension.InvalidExtensionName")
    else elim (parse_register body) [
      | none ↦ (e, forbidden "InvalidRequestFormat")
      | some events ↦ elim (find_external_agent_by_name e.service name) [
        | some a ↦ register_external_agent a events t e
        | none ↦ register_internal_agent name id events t e
      ]
    ]
