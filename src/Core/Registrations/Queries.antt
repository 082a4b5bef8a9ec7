-- ===== src/Core/Registrations/Queries.antt =====
-- internal/lambda/core/registrations.go: what can be asked of the registration service.
use lambda_runtime_init.Base.{
  Option, none, some, List, [], ◌∷◌, ◌++◌, String, get_elem?, if◌then◌else◌, map, or_else, ◌/◌,
}
use lambda_runtime_init.Core.Runtime.Methods.{StateDescription, get_runtime_description}
use lambda_runtime_init.Core.Agent.{Event, invoke_event, shutdown_event, other_event}
use lambda_runtime_init.Core.ExternalAgent.{ExternalAgent, state_name}
use lambda_runtime_init.Core.ExternalAgent.Methods.{is_subscribed}
use lambda_runtime_init.Core.InternalAgent.{InternalAgent, state_name as internal_state_name}
use lambda_runtime_init.Core.InternalAgent.Methods.{is_subscribed as is_subscribed_internal}
use lambda_runtime_init.Core.AgentsMap.{AgentRef, find_by_name, find_by_id, visited}
use lambda_runtime_init.Core.Registrations.{Memory, RegistrationService}

unfoldable pub get_external_agents : RegistrationService → List AgentRef
unfolding visited
get_external_agents s = visited s.external_agents

unfoldable pub get_internal_agents : RegistrationService → List AgentRef
unfolding visited
get_internal_agents s = visited s.internal_agents

-- The callback appends an agent that is subscribed; a dangling address cannot occur in Go.
abbrev subscribed_external : Memory → Event → List AgentRef → List AgentRef
subscribed_external h e [] = []
subscribed_external h e (a ∷ more) =
    let rest = subscribed_external h e more in
    elim (get_elem? h.externals a.address) [
      | none ↦ rest
      | some agent ↦ if is_subscribed agent e then a ∷ rest else rest
    ]

abbrev subscribed_internal : Memory → Event → List AgentRef → List AgentRef
subscribed_internal h e [] = []
subscribed_internal h e (a ∷ more) =
    let rest = subscribed_internal h e more in
    elim (get_elem? h.internals a.address) [
      | none ↦ rest
      | some agent ↦ if is_subscribed_internal agent e then a ∷ rest else rest
    ]

unfoldable pub get_subscribed_external_agents : Memory → Event → RegistrationService → List AgentRef
unfolding visited is_subscribed
get_subscribed_external_agents h e s = subscribed_external h e (visited s.external_agents)

unfoldable pub get_subscribed_internal_agents : Memory → Event → RegistrationService → List AgentRef
unfolding visited is_subscribed_internal
get_subscribed_internal_agents h e s = subscribed_internal h e (visited s.internal_agents)

unfoldable pub find_external_agent_by_name : RegistrationService → String → Option AgentRef
unfolding find_by_name
find_external_agent_by_name s name = find_by_name s.external_agents name

unfoldable pub find_internal_agent_by_name : RegistrationService → String → Option AgentRef
unfolding find_by_name
find_internal_agent_by_name s name = find_by_name s.internal_agents name

unfoldable pub find_external_agent_by_id : RegistrationService → String → Option AgentRef
unfolding find_by_id
find_external_agent_by_id s id = find_by_id s.external_agents id

unfoldable pub find_internal_agent_by_id : RegistrationService → String → Option AgentRef
unfolding find_by_id
find_internal_agent_by_id s id = find_by_id s.internal_agents id

-- `AgentInfo`, the form of an agent in customer logs.
pub record AgentInfo : Type 0 where
  pub name : String
  pub state : String
  pub subscriptions : List String
  pub error_type : String

abbrev event_text : Event → String
event_text invoke_event = "INVOKE"
event_text shutdown_event = "SHUTDOWN"
event_text (other_event t) = t

unfoldable pub external_info : Memory → List AgentRef → List AgentInfo
unfolding state_name
external_info h [] = []
external_info h (a ∷ more) =
    let rest = external_info h more in
    elim (get_elem? h.externals a.address) [
      | none ↦ rest
      | some agent ↦
          record {
            name = agent.name;
            state = state_name agent.current_state;
            subscriptions = map event_text agent.events;
            error_type = agent.error_type;
          }
          ∷ rest
    ]

unfoldable pub internal_info : Memory → List AgentRef → List AgentInfo
unfolding internal_state_name
internal_info h [] = []
internal_info h (a ∷ more) =
    let rest = internal_info h more in
    elim (get_elem? h.internals a.address) [
      | none ↦ rest
      | some agent ↦
          record {
            name = agent.name;
            state = internal_state_name agent.current_state;
            subscriptions = map event_text agent.events;
            error_type = agent.error_type;
          }
          ∷ rest
    ]

-- The external agents come first.
unfoldable pub agents_info : Memory → RegistrationService → List AgentInfo
unfolding external_info internal_info get_external_agents get_internal_agents
agents_info h s = external_info h (get_external_agents s) ++ internal_info h (get_internal_agents s)

-- The runtime's part of `getInternalStateDescription`: it is left out until a runtime is set.
unfoldable pub describe_runtime : Memory → RegistrationService → Option StateDescription
unfolding get_runtime_description
describe_runtime h s = elim s.runtime [
  | none ↦ none
  | some r ↦ elim (get_elem? h.runtimes r) [
    | none ↦ none
    | some runtime ↦ some (get_runtime_description runtime)
  ]
]

-- `statejson.ExtensionDescription`.
pub record ExtensionDescription : Type 0 where
  pub name : String
  pub id : String
  pub state : StateDescription
  pub error_type : String

-- The time of a response is not set for an agent.
unfoldable pub describe_external : ExternalAgent → ExtensionDescription
unfolding state_name
describe_external agent = record {
  name = agent.name;
  id = agent.id;
  state = record {
    name = state_name agent.current_state;
    last_modified = agent.state_last_modified / 1_000_000;
    response_time_ns = 0;
  };
  error_type = agent.error_type;
}

unfoldable pub describe_internal : InternalAgent → ExtensionDescription
unfolding internal_state_name
describe_internal agent = record {
  name = agent.name;
  id = agent.id;
  state = record {
    name = internal_state_name agent.current_state;
    last_modified = agent.state_last_modified / 1_000_000;
    response_time_ns = 0;
  };
  error_type = agent.error_type;
}

-- The callbacks of `Visit` append a description.
abbrev describe_each :
    {A : Type 0} → (A → ExtensionDescription) → List A → List AgentRef → List ExtensionDescription
describe_each f heap [] = []
describe_each f heap (a ∷ more) =
    let rest = describe_each f heap more in
    elim (get_elem? heap a.address) [ none ↦ rest | some agent ↦ f agent ∷ rest ]

-- `statejson.InternalStateDescription`.
pub record InternalStateDescription : Type 0 where
  pub runtime : Option StateDescription
  pub extensions : List ExtensionDescription
  pub first_fatal_error : String

-- `fatal_error` is what `appctx.LoadFirstFatalError` found.
unfoldable pub get_internal_state_description :
    Option String → Memory → RegistrationService → InternalStateDescription
unfolding describe_runtime describe_external describe_internal visited
get_internal_state_description fatal_error h s = record {
  runtime = describe_runtime h s;
  extensions =
      describe_each describe_internal h.internals (visited s.internal_agents)
      ++ describe_each describe_external h.externals (visited s.external_agents);
  first_fatal_error = or_else fatal_error "";
}
