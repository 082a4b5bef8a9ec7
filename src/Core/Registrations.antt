-- ===== src/Core/Registrations.antt =====
-- internal/lambda/core/registrations.go: who is registered, and the flows of an invoke.
-- The pointers of the source are addresses in the lists of `Memory`, one for each type.
pub mod Queries
pub mod Agents
pub mod Limits
pub mod Cancel
use lambda_runtime_init.Base.{
  ℕ, ◌+◌, Bool, true, false, Option, none, some, List, [], ◌∷◌, ◌++◌, String, length, get_elem?,
  if◌then◌else◌, leb, u16,
}
use lambda_runtime_init.Core.Error.{
  Error, registration_service_off, too_many_extensions, agent_name_collision,
}
use lambda_runtime_init.Core.InitFlow.{InitFlow}
use lambda_runtime_init.Core.InitFlow
use lambda_runtime_init.Core.InvokeFlow.{InvokeFlow}
use lambda_runtime_init.Core.InvokeFlow
use lambda_runtime_init.Core.Runtime.{Runtime}
use lambda_runtime_init.Core.ExternalAgent.{ExternalAgent, new_external_agent}
use lambda_runtime_init.Core.InternalAgent.{InternalAgent, new_internal_agent}
use lambda_runtime_init.Core.AgentsMap.{
  AgentRef, AgentsMap, new_agents_map, find_by_name, find_by_id, insert_agent, visited, size,
}
use lambda_runtime_init.Core.AgentsMap

pub data RegistrationServiceState : Type 0 where
  on off : RegistrationServiceState

abbrev pub max_agents_allowed : ℕ
max_agents_allowed = 10

-- `interop.RuntimeInfo`.
pub record RuntimeInfo : Type 0 where
  pub image_json : String
  pub arn : String
  pub version : String

pub record FunctionMetadata : Type 0 where
  pub account_id : String
  pub function_name : String
  pub function_version : String
  pub instance_max_memory : ℕ
  pub handler : String
  pub runtime_info : RuntimeInfo

pub record Memory : Type 0 where
  pub runtimes : List Runtime
  pub externals : List ExternalAgent
  pub internals : List InternalAgent

-- `registrationServiceImpl`; `cancelled` says that `cancelOnce` was used.
pub record RegistrationService : Type 0 where
  pub runtime : Option ℕ
  pub internal_agents : AgentsMap
  pub external_agents : AgentsMap
  pub state : RegistrationServiceState
  pub init_flow : InitFlow
  pub invoke_flow : InvokeFlow
  pub function_metadata : Option FunctionMetadata
  pub cancelled : Bool

unfoldable pub new_registration_service : InitFlow → InvokeFlow → RegistrationService
unfolding new_agents_map
new_registration_service init_flow invoke_flow = record {
  runtime = none;
  internal_agents = new_agents_map;
  external_agents = new_agents_map;
  state = on;
  init_flow = init_flow;
  invoke_flow = invoke_flow;
  function_metadata = none;
  cancelled = false;
}

unfoldable pub clear : RegistrationService → RegistrationService
unfolding AgentsMap.clear
clear s = record s {
  runtime = none;
  internal_agents = AgentsMap.clear s.internal_agents;
  external_agents = AgentsMap.clear s.external_agents;
  state = on;
  cancelled = false;
}

-- The callbacks of `Visit` count.
abbrev pub count_visits : ℕ → List AgentRef → ℕ
count_visits n [] = n
count_visits n (a ∷ more) = count_visits (n + 1) more

unfoldable pub count_agents_unsafe : RegistrationService → ℕ
unfolding visited
count_agents_unsafe s =
    count_visits (count_visits 0 (visited s.external_agents)) (visited s.internal_agents)

unfoldable pub count_agents : RegistrationService → ℕ
count_agents s = count_agents_unsafe s

-- A call that makes an agent: the memory, the service, and the pointer or the error.
pub data Created : Type 0 where
  created : AgentRef → Created
  failed : Error → Created

abbrev place : Option Error → AgentRef → Created
place none a = created a
place (some e) a = failed e

abbrev is_on : RegistrationServiceState → Bool
is_on on = true
is_on off = false

-- What happens under the mutex, with the agent made already.
unfoldable pub add_external : AgentRef → RegistrationService → RegistrationService × Created
add_external a s =
    if is_on s.state
    then elim (find_by_name s.internal_agents a.name) [
      | some _ ↦ (s, failed agent_name_collision)
      | none ↦
          let (m, err) = insert_agent s.external_agents a in
          (record s { external_agents = m }, place err a)
    ]
    else (s, failed registration_service_off)

unfoldable pub add_internal : AgentRef → RegistrationService → RegistrationService × Created
add_internal a s =
    if is_on s.state
    then if leb max_agents_allowed (count_agents_unsafe s)
      then (s, failed too_many_extensions)
      else elim (find_by_name s.external_agents a.name) [
        | some _ ↦ (s, failed agent_name_collision)
        | none ↦
            let (m, err) = insert_agent s.internal_agents a in
            (record s { internal_agents = m }, place err a)
      ]
    else (s, failed registration_service_off)

-- `id` is the text of `uuid.New()`, and `now` the reading of the clock.
unfoldable pub create_external_agent :
    String → String → ℕ → Memory → RegistrationService → Memory × RegistrationService × Created
unfolding new_external_agent add_external
create_external_agent name id now h s =
    let agent = new_external_agent name id now in
    let ref : AgentRef = record { address = length h.externals; name = name; id = id } in
    let (s', c) = add_external ref s in (record h { externals = h.externals ++ agent ∷ [] }, s', c)

unfoldable pub create_internal_agent :
    String → String → ℕ → Memory → RegistrationService → Memory × RegistrationService × Created
unfolding new_internal_agent add_internal
create_internal_agent name id now h s =
    let agent = new_internal_agent name id now in
    let ref : AgentRef = record { address = length h.internals; name = name; id = id } in
    let (s', c) = add_internal ref s in (record h { internals = h.internals ++ agent ∷ [] }, s', c)

unfoldable pub preregister_runtime : ℕ → RegistrationService → RegistrationService × Option Error
preregister_runtime r s =
    if is_on s.state
    then (record s { runtime = some r }, none)
    else (s, some registration_service_off)

unfoldable pub set_function_metadata : FunctionMetadata → RegistrationService → RegistrationService
set_function_metadata metadata s = record s { function_metadata = some metadata }

unfoldable pub get_registered_agents_size : RegistrationService → ℕ
unfolding size
get_registered_agents_size s = u16 (u16 (size s.external_agents) + u16 (size s.internal_agents))

unfoldable pub turn_off : RegistrationService → RegistrationService
turn_off s = record s { state = off }

unfoldable pub cancel_flows : Option Error → RegistrationService → RegistrationService
unfolding InitFlow.cancel_with_error InvokeFlow.cancel_with_error
cancel_flows err s = if s.cancelled then s else record s {
  init_flow = InitFlow.cancel_with_error s.init_flow err;
  invoke_flow = InvokeFlow.cancel_with_error s.invoke_flow err;
  cancelled = true;
}
