-- ===== src/Core/Agent.antt =====
-- What external and internal agents share: platform events and the set of those subscribed to.
-- internal/lambda/core/registrations.go, agentutil.go and agent_state_names.go.
pub mod Events
use lambda_runtime_init.Base.{Bool, true, false, List, [], ◌∷◌, ◌++◌, String, str_eq, if◌then◌else◌}
use lambda_runtime_init.Core.Error.{Error, too_many_extensions}

-- `type Event string`: the two known values, and any other string.
pub data Event : Type 0 where
  invoke_event shutdown_event : Event
  other_event : String → Event

abbrev pub same_event : Event → Event → Bool
same_event invoke_event invoke_event = true
same_event shutdown_event shutdown_event = true
same_event (other_event s) (other_event t) = str_eq s t
same_event _ _ = false

-- `map[Event]struct{}`: the keys, each once.
unfoldable pub has_event : List Event → Event → Bool
has_event [] e = false
has_event (x ∷ xs) e = if same_event x e then true else has_event xs e

unfoldable pub add_event : List Event → Event → List Event
unfolding has_event
add_event xs e = if has_event xs e then xs else xs ++ e ∷ []

-- `AgentInfoErrorType` and the map to it; `is_permission` is `os.IsPermission`.
unfoldable pub kind_of_error : Error → String
kind_of_error too_many_extensions = "TooManyExtensions"
kind_of_error _ = "UnknownError"

unfoldable pub map_error_to_agent_info_error_type : (Error → Bool) → Error → String
unfolding kind_of_error
map_error_to_agent_info_error_type is_permission err =
    if is_permission err then "PermissionDenied" else kind_of_error err
