-- ===== src/Rapid/Reset.antt =====
-- internal/lambda/rapid: `HandleReset`, `HandleShutdown` and `Clear` (handlers.go, sandbox.go), around
-- the shutdown. The metrics of the answers are left out.
pub mod Ends
use lambda_runtime_init.Base.{
  ℕ, ◌+◌, ◌/◌, Bool, true, false, not, ◌&&◌, ◌||◌, Option, none, some, List, [], ◌∷◌, String,
  if◌then◌else◌, ltb, map, codes, get_elem?, ◌==◌,
}
use lambda_runtime_init.Base.Int.{ℤ, pos, negsuc, ◌-ℤ◌, wrap64, ltb_ℤ}
use lambda_runtime_init.Core.Error.{Error, reset_received, other}
use lambda_runtime_init.Core.Gate.{Await, blocked, passed}
use lambda_runtime_init.Core.InitFlow.{Select}
use lambda_runtime_init.Core.InitFlow
use lambda_runtime_init.Core.InvokeFlow
use lambda_runtime_init.Core.Runtime.{Runtime, RuntimeState}
use lambda_runtime_init.Core.Registrations.{
  RegistrationService, FunctionMetadata, cancel_flows, count_agents, set_function_metadata,
  new_registration_service,
}
use lambda_runtime_init.Core.Registrations
use lambda_runtime_init.Core.Registrations.Queries.{AgentInfo, agents_info}
use lambda_runtime_init.Core.Credentials.{
  Credentials, set_credentials, update_credentials, new_credentials_service,
}
use lambda_runtime_init.Appctx.{
  ApplicationContext, delete, store_response_sender, store_init_type, store_interop_server,
  new_application_context, load_first_fatal_error, Loaded, found, absent, mistyped,
  first_fatal_error_key, invoke_error_trace_data_key, runtime_release_key,
}
use lambda_runtime_init.Appctx.Features.{get_runtime_release}
use lambda_runtime_init.Fatalerror.{sandbox_failure, has_prefix}
use lambda_runtime_init.Rapidcore.Env.{
  Environment, Vars, store_environment_variables_from_init,
  store_environment_variables_from_init_for_init_caching,
}
use lambda_runtime_init.Rapid.Names.{get_extension_names}
use lambda_runtime_init.Rapid.{
  no_renderer, restore_renderer, Status, runtime_done_success, runtime_done_error,
  runtime_done_failure, runtime_done_timeout, sends_invoke_runtime_done, sends_restore_runtime_done,
  clears_subscriptions, Settings, Rapid, output, output_if, next_generation, release_runtime,
}
use lambda_runtime_init.Rapid.Exits.{new_shutdown_context}
use lambda_runtime_init.Rapid.Init.{get_first_fatal_error}
use lambda_runtime_init.Rapid.Invoke.{has_active_extensions}
use lambda_runtime_init.Rapid.Handlers.{fatal_or}

-- `reinitialize` without the subscriptions.
unfoldable pub forget : Rapid → Rapid
unfolding delete Registrations.clear InitFlow.clear InvokeFlow.clear
forget r =
    let cleared = Registrations.clear r.service in
    record r {
      app =
          delete first_fatal_error_key
            (delete runtime_release_key (delete invoke_error_trace_data_key r.app));
      renderer = no_renderer;
      init_done = false;
      service = record cleared {
        init_flow = InitFlow.clear cleared.init_flow;
        invoke_flow = InvokeFlow.clear cleared.invoke_flow;
      };
    }

-- `Clear`.
unfoldable pub reinitialize : Settings → Rapid → Rapid
unfolding forget
reinitialize c r = output_if c.telemetry_api_enabled clears_subscriptions (forget r)

-- The first step of `HandleReset`, which does not take the mutex of the handlers.
unfoldable pub reset_cancels : Rapid → Rapid
unfolding cancel_flows
reset_cancels r = record r { service = cancel_flows (some reset_received) r.service }

pub data ResetReason : Type 0 where
  failure timeout : ResetReason
  other_reason : String → ResetReason

abbrev pub reset_status : List ℕ → Status
reset_status error_type =
    if has_prefix error_type (codes "Sandbox.") then runtime_done_failure else runtime_done_error

-- The event that `handleReset` sends for a reset during an invoke.
unfoldable pub reset_done : ResetReason → Rapid → Rapid
unfolding fatal_or
reset_done failure r =
    let t = fatal_or sandbox_failure r.app in
    output (sends_invoke_runtime_done (reset_status t) (some t)) r
reset_done timeout r = output (sends_invoke_runtime_done runtime_done_timeout none) r
reset_done (other_reason t) r = r

-- `HandleReset` with the mutex, up to its shutdown.
unfoldable pub reset_begins : ResetReason → Rapid → Rapid
unfolding delete reset_done
reset_begins reason r =
    reset_done reason (record r { app = delete invoke_error_trace_data_key r.app })

abbrev pub millis : ℤ → ℕ
millis (pos n) = n / 1_000_000
millis (negsuc n) = 0

-- `CalculateExtensionsResetMs`, with the readings of the clock as int64; the two divisions are of
-- numbers that are not negative.
unfoldable pub calculate_extensions_reset_ms : ℕ → ℤ → ℤ → ℤ → ℕ × Bool
unfolding wrap64 ◌-ℤ◌
calculate_extensions_reset_ms agents available start end' =
    let duration = wrap64 (end' -ℤ start) in
    if agents == 0 || ltb_ℤ available (pos 0) || ltb_ℤ duration (pos 0)
    then (0, false)
    else if ltb_ℤ available duration
    then (millis available, true)
    else (millis duration, false)

-- `interop.ResetSuccess` or `interop.ResetFailure`.
pub record ResetAnswer : Type 0 where
  pub timed_out : Bool
  pub extensions_reset_ms : ℕ
  pub error_type : List ℕ

-- The end of `handleReset`, with what its shutdown answered.
unfoldable pub reset_ends : Settings → ℕ × Bool → Rapid → Rapid × ResetAnswer
unfolding next_generation fatal_or
reset_ends c (ms, timed_out) r =
    let next = next_generation r in
    (
      next,
      record {
        timed_out = timed_out;
        extensions_reset_ms = ms;
        error_type = if c.standalone_mode then fatal_or [] next.app else [];
      },
    )

-- The answer of `handleShutdown`, after its shutdown.
unfoldable pub answer_shutdown : Settings → Rapid → List ℕ
unfolding fatal_or
answer_shutdown c r = if c.standalone_mode then fatal_or [] r.app else []
