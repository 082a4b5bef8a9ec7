-- ===== src/Rapid/Handlers.antt =====
-- internal/lambda/rapid: what `Start`, `handleInit` and `handleInvoke` do around the init and the invoke
-- (handlers.go, exit.go, sandbox.go). The metrics of their answers are left out.
pub mod Answers
use lambda_runtime_init.Base.{
  ℕ, ◌+◌, ◌/◌, Bool, true, false, not, ◌&&◌, ◌||◌, Option, none, some, List, [], ◌∷◌, String,
  if◌then◌else◌, ltb, map, codes, get_elem?, ◌==◌,
}
use lambda_runtime_init.Base.Int.{ℤ, pos, negsuc, ◌-ℤ◌, wrap64, ltb_ℤ}
use lambda_runtime_init.Core.Error.{Error, reset_received, other}
use lambda_runtime_init.Core.Gate.{Await, blocked, passed}
use lambda_runtime_init.Core.InitFlow.{Select}
use lambda_runtime_init.Core.InitFlow
use lambda_runtime_init.Core.InvokeFlow
use lambda_runtime_init.Core.Runtime.{Runtime, RuntimeState}
use lambda_runtime_init.Core.Registrations.{
  RegistrationService, FunctionMetadata, cancel_flows, count_agents, set_function_metadata,
  new_registration_service,
}
use lambda_runtime_init.Core.Registrations
use lambda_runtime_init.Core.Registrations.Queries.{AgentInfo, agents_info}
use lambda_runtime_init.Core.Credentials.{
  Credentials, set_credentials, update_credentials, new_credentials_service,
}
use lambda_runtime_init.Appctx.{
  ApplicationContext, delete, store_response_sender, store_init_type, store_interop_server,
  new_application_context, load_first_fatal_error, Loaded, found, absent, mistyped,
  first_fatal_error_key, invoke_error_trace_data_key, runtime_release_key,
}
use lambda_runtime_init.Appctx.Features.{get_runtime_release}
use lambda_runtime_init.Fatalerror.{sandbox_failure, has_prefix}
use lambda_runtime_init.Rapidcore.Env.{
  Environment, Vars, store_environment_variables_from_init,
  store_environment_variables_from_init_for_init_caching,
}
use lambda_runtime_init.Rapid.Names.{get_extension_names}
use lambda_runtime_init.Rapid.{
  no_renderer, restore_renderer, Status, runtime_done_success, runtime_done_error,
  runtime_done_failure, runtime_done_timeout, sends_invoke_runtime_done, sends_restore_runtime_done,
  clears_subscriptions, Settings, Rapid, output, output_if, next_generation, release_runtime,
}
use lambda_runtime_init.Rapid.Exits.{new_shutdown_context}
use lambda_runtime_init.Rapid.Init.{get_first_fatal_error}
use lambda_runtime_init.Rapid.Invoke.{has_active_extensions}

-- `Start`. The addresses of the server and the flag for the caching of inits come from outside.
unfoldable pub start : Settings → ℕ → Rapid
unfolding new_application_context store_init_type store_interop_server new_registration_service
    new_credentials_service new_shutdown_context InitFlow.new_init_flow InvokeFlow.new_invoke_flow
start c server = record {
  app =
      store_interop_server server (store_init_type c.init_caching_enabled new_application_context);
  init_done = false;
  runtime_domain_generation = 0;
  memory = record { runtimes = []; externals = []; internals = [] };
  service = new_registration_service InitFlow.new_init_flow InvokeFlow.new_invoke_flow;
  renderer = no_renderer;
  credentials = new_credentials_service;
  shutdown = new_shutdown_context;
  log_stream_name = "";
  outputs = [];
}

-- `interop.Init`, as far as it is used.
pub record InitRequest : Type 0 where
  pub environment : Environment
  pub customer_environment_variables : Vars
  pub metadata : FunctionMetadata
  pub credentials : Credentials
  pub log_stream_name : String

unfoldable pub accept_init_request : InitRequest → Rapid → InitRequest × Rapid
unfolding store_environment_variables_from_init set_function_metadata
accept_init_request q r = (
  record q {
    environment =
        store_environment_variables_from_init q.customer_environment_variables q.metadata.handler
          q.credentials.aws_key q.credentials.aws_secret q.credentials.aws_session
          q.metadata.function_name q.metadata.function_version q.environment;
  },
  record r {
    service = set_function_metadata q.metadata r.service;
    log_stream_name = q.log_stream_name;
  },
)

-- `token` is the text of `uuid.NewRandom()`, or its error; `uri` is made of the server's address.
unfoldable pub accept_init_request_for_init_caching :
    String → String → InitRequest → Rapid → InitRequest × Rapid
unfolding store_environment_variables_from_init_for_init_caching set_function_metadata
    set_credentials
accept_init_request_for_init_caching uri token q r = (
  record q {
    environment =
        store_environment_variables_from_init_for_init_caching uri q.customer_environment_variables
          q.metadata.handler q.metadata.function_name q.metadata.function_version token
          q.environment;
  },
  record r {
    service = set_function_metadata q.metadata r.service;
    log_stream_name = q.log_stream_name;
    credentials = set_credentials token q.credentials r.credentials;
  },
)

-- The first fatal error, or a default; `mistyped` cannot occur, since only errors are stored.
unfoldable pub fatal_or : List ℕ → ApplicationContext → List ℕ
unfolding load_first_fatal_error
fatal_or default app = elim (load_first_fatal_error app) [
  | found t ↦ t
  | absent ↦ default
  | mistyped ↦ default
]

abbrev names_of : (String → List ℕ) → List AgentInfo → List (List ℕ)
names_of utf8 [] = []
names_of utf8 (i ∷ more) = utf8 i.name ∷ names_of utf8 more

-- `GetExtensionNames` of a context; `utf8` gives the bytes of a text.
unfoldable pub extension_names : (String → List ℕ) → Rapid → List ℕ
unfolding agents_info get_extension_names
extension_names utf8 r = get_extension_names (names_of utf8 (agents_info r.memory r.service))

-- What the answers to an init and an invoke have in common.
pub record Summary : Type 0 where
  pub runtime_release : Loaded (List ℕ)
  pub num_active_extensions : ℕ
  pub extension_names : List ℕ

unfoldable pub summary : (String → List ℕ) → Rapid → Summary
unfolding get_runtime_release count_agents extension_names
summary utf8 r = record {
  runtime_release = get_runtime_release r.app;
  num_active_extensions = count_agents r.service;
  extension_names = extension_names utf8 r;
}

-- `interop.InvokeFailure` and `interop.InitFailure`; the latter leaves the names of the extensions out.
pub record FailureMessage : Type 0 where
  pub error_type : List ℕ
  pub error_message : Error
  pub request_reset : Bool
  pub reset_received : Bool
  pub summary : Summary

abbrev pub is_reset : Error → Bool
is_reset reset_received = true
is_reset _ = false

unfoldable pub new_invoke_failure_msg : (String → List ℕ) → Error → Rapid → FailureMessage
unfolding fatal_or summary
new_invoke_failure_msg utf8 err r = record {
  error_type = fatal_or sandbox_failure r.app;
  error_message = err;
  request_reset = true;
  reset_received = false;
  summary = summary utf8 r;
}

unfoldable pub handle_invoke_error : Settings → (String → List ℕ) → Error → Rapid → FailureMessage
unfolding new_invoke_failure_msg
handle_invoke_error c utf8 err r =
    let msg = new_invoke_failure_msg utf8 err r in
    if not c.extensions_enabled
    then record msg { request_reset = false }
    else if is_reset err
    then record msg { reset_received = true }
    else record msg { request_reset = true }

unfoldable pub generate_init_failure_msg : Error → Rapid → FailureMessage
unfolding fatal_or get_runtime_release count_agents
generate_init_failure_msg err r = record {
  error_type = fatal_or sandbox_failure r.app;
  error_message = err;
  request_reset = true;
  reset_received = false;
  summary = record {
    runtime_release = get_runtime_release r.app;
    num_active_extensions = count_agents r.service;
    extension_names = [];
  };
}

unfoldable pub handle_init_error : Settings → Error → Rapid → FailureMessage
unfolding generate_init_failure_msg has_active_extensions
handle_init_error c err r =
    let msg = generate_init_failure_msg err r in
    if is_reset err
    then record msg { reset_received = true }
    else if not (has_active_extensions c r) && not c.standalone_mode
    then record msg { request_reset = false }
    else record msg { request_reset = true }

pub data Answer : Type 0 where
  succeeded : Summary → Answer
  failed : FailureMessage → Answer

-- What `handleInit` sends when its init has ended.
unfoldable pub answer_init : Settings → (String → List ℕ) → Option Error → Rapid → Answer
unfolding handle_init_error summary
answer_init c utf8 none r = succeeded (summary utf8 r)
answer_init c utf8 (some err) r = failed (handle_init_error c err r)

-- `HandleInvoke` and `handleInvoke` up to `doInvoke`.
unfoldable pub prepare_invoke : ℕ → Rapid → Rapid
unfolding store_response_sender delete
prepare_invoke sender r = record r {
  app = store_response_sender sender (delete invoke_error_trace_data_key r.app);
}

unfoldable pub answer_invoke : Settings → (String → List ℕ) → Option Error → Rapid → Answer
unfolding handle_invoke_error summary
answer_invoke c utf8 none r = succeeded (summary utf8 r)
answer_invoke c utf8 (some err) r = failed (handle_invoke_error c utf8 err r)
