-- ===== src/Rapidcore/Env.antt =====
-- internal/lambda/rapidcore/env: the environment variables of the runtime and of the extensions
-- (environment.go, customer.go, util.go, constants.go). A Go map is an association list.
pub mod Layers
pub mod Laws
pub mod Exec
pub mod Secrets
pub mod Split
use Prim.Native.Char.{code}
use text.Mathlib.Text.{starts_with}
use lambda_runtime_init.Base.{
  ℕ, Bool, true, false, not, ◌&&◌, ◌||◌, Option, none, some, List, [], ◌∷◌, String, str_eq,
  if◌then◌else◌, ◌==◌, or_else,
}
use lambda_runtime_init.Base.Dict.{lookup, insert}

abbrev pub Vars : Type 0
Vars = List (String × String)

pub record Environment : Type 0 where
  pub customer : Vars
  pub rapid : Vars
  pub platform : Vars
  pub runtime : Vars
  pub platform_unreserved : Vars
  pub credentials : Vars
  pub runtime_api_set : Bool
  pub init_env_vars_set : Bool

-- `map[string]bool` with true for each key that is there.
unfoldable pub has_key : List String → String → Bool
has_key [] key = false
has_key (k ∷ ks) key = str_eq k key || has_key ks key

abbrev pub predefined_internal_env_var_keys : List String
predefined_internal_env_var_keys =
    "_LAMBDA_SB_ID" ∷ "_LAMBDA_LOG_FD" ∷ "_LAMBDA_SHARED_MEM_FD" ∷ "_LAMBDA_CONTROL_SOCKET"
    ∷ "_LAMBDA_DIRECT_INVOKE_SOCKET" ∷ "_LAMBDA_RUNTIME_LOAD_TIME" ∷ "_LAMBDA_CONSOLE_SOCKET"
    ∷ "_X_AMZN_TRACE_ID" ∷ "_LAMBDA_TELEMETRY_API_PASSPHRASE" ∷ []

abbrev pub predefined_platform_env_var_keys : List String
predefined_platform_env_var_keys =
    "AWS_REGION" ∷ "AWS_DEFAULT_REGION" ∷ "AWS_LAMBDA_FUNCTION_NAME"
    ∷ "AWS_LAMBDA_FUNCTION_MEMORY_SIZE" ∷ "AWS_LAMBDA_FUNCTION_VERSION" ∷ "AWS_LAMBDA_RUNTIME_API"
    ∷ "AWS_LAMBDA_METADATA_API" ∷ "AWS_LAMBDA_METADATA_TOKEN" ∷ "TZ" ∷ []

abbrev pub predefined_runtime_env_var_keys : List String
predefined_runtime_env_var_keys =
    "_HANDLER" ∷ "AWS_EXECUTION_ENV" ∷ "AWS_LAMBDA_LOG_GROUP_NAME" ∷ "AWS_LAMBDA_LOG_STREAM_NAME"
    ∷ "LAMBDA_TASK_ROOT" ∷ "LAMBDA_RUNTIME_DIR" ∷ []

abbrev pub predefined_platform_unreserved_env_var_keys : List String
predefined_platform_unreserved_env_var_keys = "AWS_XRAY_DAEMON_ADDRESS" ∷ []

abbrev pub predefined_credentials_env_var_keys : List String
predefined_credentials_env_var_keys =
    "AWS_ACCESS_KEY_ID" ∷ "AWS_SECRET_ACCESS_KEY" ∷ "AWS_SESSION_TOKEN" ∷ []

abbrev pub extension_excluded_keys : List String
extension_excluded_keys =
    "AWS_XRAY_CONTEXT_MISSING" ∷ "_AWS_XRAY_DAEMON_ADDRESS" ∷ "_AWS_XRAY_DAEMON_PORT"
    ∷ "_LAMBDA_TELEMETRY_LOG_FD" ∷ []

-- `os` is `os.LookupEnv`.
unfoldable pub lookup_env : (String → Option String) → List String → Vars
unfolding insert
lookup_env os [] = []
lookup_env os (key ∷ keys) =
    let rest = lookup_env os keys in elim (os key) [ none ↦ rest | some val ↦ insert key val rest ]

unfoldable pub new_environment : (String → Option String) → Environment
unfolding lookup_env
new_environment os = record {
  customer = [];
  rapid = lookup_env os predefined_internal_env_var_keys;
  platform = lookup_env os predefined_platform_env_var_keys;
  runtime = lookup_env os predefined_runtime_env_var_keys;
  platform_unreserved = lookup_env os predefined_platform_unreserved_env_var_keys;
  credentials = [];
  runtime_api_set = false;
  init_env_vars_set = false;
}

-- The inner loop of `mapUnion`: each entry overwrites that of an earlier map.
unfoldable pub add_all : Vars → Vars → Vars
unfolding insert
add_all [] union = union
add_all ((key, val) ∷ m) union = add_all m (insert key val union)

unfoldable pub add_maps : List Vars → Vars → Vars
unfolding add_all
add_maps [] union = union
add_maps (m ∷ maps) union = add_maps maps (add_all m union)

unfoldable pub map_union : List Vars → Vars
unfolding add_maps
map_union maps = add_maps maps []

unfoldable pub map_exclude : (String → Bool) → Vars → Vars
map_exclude exclude [] = []
map_exclude exclude ((key, val) ∷ m) =
    let rest = map_exclude exclude m in if exclude key then rest else (key, val) ∷ rest

unfoldable pub store_runtime_api_environment_variable : String → Environment → Environment
unfolding insert
store_runtime_api_environment_variable address e = record e {
  platform = insert "AWS_LAMBDA_RUNTIME_API" address e.platform;
  runtime_api_set = true;
}

unfoldable pub store_metadata_api_environment_variables :
    String → String → Environment → Environment
unfolding insert
store_metadata_api_environment_variables address token e = record e {
  platform =
      insert "AWS_LAMBDA_METADATA_TOKEN" token
        (insert "AWS_LAMBDA_METADATA_API" address e.platform);
}

-- `SetHandler`, `SetExecutionEnv`, `SetTaskRoot` and `SetRuntimeDir` set a key each.
unfoldable pub set_handler : String → Environment → Environment
unfolding insert
set_handler handler e = record e { runtime = insert "_HANDLER" handler e.runtime }

unfoldable pub set_execution_env : String → Environment → Environment
unfolding insert
set_execution_env v e = record e { runtime = insert "AWS_EXECUTION_ENV" v e.runtime }

-- A key that is not there gives the empty text.
unfoldable pub get_execution_env : Environment → String
unfolding lookup
get_execution_env e = or_else (lookup "AWS_EXECUTION_ENV" e.runtime) ""

unfoldable pub set_task_root : String → Environment → Environment
unfolding insert
set_task_root v e = record e { runtime = insert "LAMBDA_TASK_ROOT" v e.runtime }

unfoldable pub set_runtime_dir : String → Environment → Environment
unfolding insert
set_runtime_dir v e = record e { runtime = insert "LAMBDA_RUNTIME_DIR" v e.runtime }

unfoldable pub merge_customer_environment_variables : Vars → Environment → Environment
unfolding map_union
merge_customer_environment_variables vars e = record e {
  customer = map_union (e.customer ∷ vars ∷ []);
}

unfoldable pub store_environment_variables_from_cli_options : Vars → Environment → Environment
unfolding merge_customer_environment_variables
store_environment_variables_from_cli_options vars e = merge_customer_environment_variables vars e

-- A text that is set unless it is empty.
abbrev pub set_unless_empty : String → String → Vars → Vars
set_unless_empty key v m = if str_eq v "" then m else insert key v m

unfoldable pub store_non_credential_environment_variables_from_init :
    Vars → String → String → String → Environment → Environment
unfolding merge_customer_environment_variables set_handler insert
store_non_credential_environment_variables_from_init customer handler func_name func_ver e =
    let named = if str_eq handler "" then e else set_handler handler e in
    let placed : Environment = record named {
      platform =
          set_unless_empty "AWS_LAMBDA_FUNCTION_VERSION" func_ver
            (set_unless_empty "AWS_LAMBDA_FUNCTION_NAME" func_name named.platform);
    } in
    record (merge_customer_environment_variables customer placed) { init_env_vars_set = true }

unfoldable pub store_environment_variables_from_init :
    Vars → String → String → String → String → String → String → Environment → Environment
unfolding store_non_credential_environment_variables_from_init insert
store_environment_variables_from_init customer handler aws_key aws_secret aws_session name ver e =
    store_non_credential_environment_variables_from_init customer handler name ver (record e {
      credentials = insert "AWS_SESSION_TOKEN" aws_session (
          insert "AWS_SECRET_ACCESS_KEY" aws_secret
            (insert "AWS_ACCESS_KEY_ID" aws_key e.credentials));
    })

-- `uri` is the text of the address, made of the host and the port.
unfoldable pub store_environment_variables_from_init_for_init_caching :
    String → Vars → String → String → String → String → Environment → Environment
unfolding store_non_credential_environment_variables_from_init insert
store_environment_variables_from_init_for_init_caching uri customer handler name ver token e =
    store_non_credential_environment_variables_from_init customer handler name ver (record e {
      credentials =
          insert "AWS_CONTAINER_AUTHORIZATION_TOKEN" token
            (insert "AWS_CONTAINER_CREDENTIALS_FULL_URI" uri e.credentials);
    })

-- `none` is `log.Fatal`.
unfoldable pub runtime_exec_env : Environment → Option Vars
unfolding map_union
runtime_exec_env e =
    if not e.init_env_vars_set || not e.runtime_api_set
    then none
    else some (
        map_union
          (e.customer ∷ e.platform_unreserved ∷ e.credentials ∷ e.runtime ∷ e.platform ∷ []))

unfoldable pub excluded : String → Bool
unfolding has_key
excluded key = has_key extension_excluded_keys key || starts_with key "_"

unfoldable pub agent_exec_env : Environment → Option Vars
unfolding map_union map_exclude excluded
agent_exec_env e =
    if not e.init_env_vars_set || not e.runtime_api_set
    then none
    else some (map_exclude excluded (map_union (e.customer ∷ e.credentials ∷ e.platform ∷ [])))

-- The keys with an underscore that are passed on.
abbrev allowed_keys : List String
allowed_keys =
    "_HANDLER" ∷ "_AWS_XRAY_DAEMON_ADDRESS" ∷ "_AWS_XRAY_DAEMON_PORT" ∷ "_LAMBDA_TELEMETRY_LOG_FD"
    ∷ []

unfoldable pub is_internal_env_var : String → Bool
unfolding has_key
is_internal_env_var key = starts_with key "_" && not (has_key allowed_keys key)

-- `strings.SplitN(s, "=", 2)`; `none` is the error for a text without `=`.
unfoldable pub split_environment_variable : String → Option (String × String)
split_environment_variable String.[] = none
split_environment_variable (String.◌∷◌ c s) =
    let rest = split_environment_variable s in
    if code c == 61
    then some ("", s)
    else elim rest [ none ↦ none | some (key, val) ↦ some (String.◌∷◌ c key, val) ]

unfoldable pub is_customer : String → Bool
unfolding has_key is_internal_env_var
is_customer key =
    not (has_key predefined_internal_env_var_keys key)
    && not (has_key predefined_runtime_env_var_keys key)
    && not (has_key predefined_platform_env_var_keys key)
    && not (has_key predefined_credentials_env_var_keys key)
    && not (has_key predefined_platform_unreserved_env_var_keys key)
    && not (is_internal_env_var key)

-- The loop over `os.Environ()`; an entry with no `=` is skipped.
unfoldable pub collect_customer : List String → Vars → Vars
unfolding split_environment_variable is_customer insert
collect_customer [] env = env
collect_customer (keyval ∷ more) env = elim (split_environment_variable keyval) [
  | none ↦ collect_customer more env
  | some (key, val) ↦ collect_customer more (if is_customer key then insert key val env else env)
]

unfoldable pub customer_environment_variables : List String → Vars
unfolding collect_customer
customer_environment_variables environ = collect_customer environ []
