-- ===== src/Rapid/Restore.antt =====
-- internal/lambda/rapid/handlers.go, `handleRestore`: a step up to its wait, and one when it is woken.
pub mod Laws
use lambda_runtime_init.Base.{
  ℕ, ◌+◌, ◌/◌, Bool, true, false, not, ◌&&◌, ◌||◌, Option, none, some, List, [], ◌∷◌, String,
  if◌then◌else◌, ltb, map, codes, get_elem?, ◌==◌,
}
use lambda_runtime_init.Base.Int.{ℤ, pos, negsuc, ◌-ℤ◌, wrap64, ltb_ℤ}
use lambda_runtime_init.Core.Error.{Error, reset_received, other}
use lambda_runtime_init.Core.Gate.{Await, blocked, passed}
use lambda_runtime_init.Core.InitFlow.{Select}
use lambda_runtime_init.Core.InitFlow
use lambda_runtime_init.Core.InvokeFlow
use lambda_runtime_init.Core.Runtime.{Runtime, RuntimeState}
use lambda_runtime_init.Core.Registrations.{
  RegistrationService, FunctionMetadata, cancel_flows, count_agents, set_function_metadata,
  new_registration_service,
}
use lambda_runtime_init.Core.Registrations
use lambda_runtime_init.Core.Registrations.Queries.{AgentInfo, agents_info}
use lambda_runtime_init.Core.Credentials.{
  Credentials, set_credentials, update_credentials, new_credentials_service,
}
use lambda_runtime_init.Appctx.{
  ApplicationContext, delete, store_response_sender, store_init_type, store_interop_server,
  new_application_context, load_first_fatal_error, Loaded, found, absent, mistyped,
  first_fatal_error_key, invoke_error_trace_data_key, runtime_release_key,
}
use lambda_runtime_init.Appctx.Features.{get_runtime_release}
use lambda_runtime_init.Fatalerror.{sandbox_failure, has_prefix}
use lambda_runtime_init.Rapidcore.Env.{
  Environment, Vars, store_environment_variables_from_init,
  store_environment_variables_from_init_for_init_caching,
}
use lambda_runtime_init.Rapid.Names.{get_extension_names}
use lambda_runtime_init.Rapid.{
  no_renderer, restore_renderer, Status, runtime_done_success, runtime_done_error,
  runtime_done_failure, runtime_done_timeout, sends_invoke_runtime_done, sends_restore_runtime_done,
  clears_subscriptions, Settings, Rapid, output, output_if, next_generation, release_runtime,
}
use lambda_runtime_init.Rapid.Exits.{new_shutdown_context}
use lambda_runtime_init.Rapid.Init.{get_first_fatal_error}
use lambda_runtime_init.Rapid.Invoke.{has_active_extensions}

-- `interop.Restore`.
pub record Restore : Type 0 where
  pub credentials : Credentials
  pub log_stream_name : String

pub data RestoreError : Type 0 where
  restore_update_credentials : RestoreError
  fatal : List ℕ → RestoreError
  of_flow : Error → RestoreError

pub data RestoreProgress : Type 0 where
  awaits_restore : RestoreProgress
  restored : Option RestoreError → RestoreProgress
  restore_panicked : RestoreProgress

-- The deferred event.
unfoldable pub finish_restore : Status → Option RestoreError → Rapid → Rapid × RestoreProgress
unfolding get_first_fatal_error
finish_restore status err r = (
  output (sends_restore_runtime_done status (get_first_fatal_error status r.app)) r,
  restored err,
)

abbrev pub is_restore_ready : Runtime → Bool
is_restore_ready runtime = elim runtime.current_state [
  | RuntimeState.restore_ready ↦ true
  | _ ↦ false
]

-- What is done with the runtime: it is released only where it has asked for the restore.
abbrev pub release_restored : ℕ → Option Runtime → Rapid → Rapid × RestoreProgress
release_restored address none r = (r, restore_panicked)
release_restored address (some runtime) r =
    if is_restore_ready runtime
    then (release_runtime address r, awaits_restore)
    else finish_restore runtime_done_success none r

abbrev pub with_runtime : Option ℕ → Rapid → Rapid × RestoreProgress
with_runtime none r = (r, restore_panicked)
with_runtime (some address) r = release_restored address (get_elem? r.memory.runtimes address) r

-- `handleRestore`, up to its wait. Where the credentials are refused the status is that of a success.
unfoldable pub restore_begins : Restore → Rapid → Rapid × RestoreProgress
unfolding update_credentials finish_restore release_runtime
restore_begins q r =
    let (credentials, err) = update_credentials q.credentials r.credentials in
    let updated = record r { credentials = credentials } in
    elim err [
      | some _ ↦ finish_restore runtime_done_success (some restore_update_credentials) updated
      | none ↦
          with_runtime updated.service.runtime
            (record updated { renderer = restore_renderer; log_stream_name = q.log_stream_name })
    ]

abbrev pub flow_error : Option Error → Option RestoreError
flow_error none = none
flow_error (some e) = some (of_flow e)

-- The fatal error that was stored counts first.
abbrev pub restore_error : Loaded (List ℕ) → Option Error → Option RestoreError
restore_error (found t) err = some (fatal t)
restore_error absent err = flow_error err
restore_error mistyped err = flow_error err

abbrev pub restore_status : Option RestoreError → Status
restore_status none = runtime_done_success
restore_status (some e) = runtime_done_error

abbrev pub at_restore_gate : Await → Rapid → Rapid × RestoreProgress
at_restore_gate blocked r = (r, awaits_restore)
at_restore_gate (passed err) r =
    let e = restore_error (load_first_fatal_error r.app) err in
    finish_restore (restore_status e) e r

-- The wait with the deadline of the restore hook.
unfoldable pub restore_resumes : Select → Rapid → Rapid × RestoreProgress
unfolding InitFlow.await_runtime_ready_with_deadline finish_restore
restore_resumes select r =
    let (flow, a) = InitFlow.await_runtime_ready_with_deadline r.service.init_flow select in
    at_restore_gate a (record r { service = record r.service { init_flow = flow } })
