-- ===== src/Rapid.antt =====
-- internal/lambda/rapid: the main thread of the sandbox, `rapidContext` of handlers.go. What it sends
-- to the supervisor, the events API and the subscription APIs is the list `outputs`, the last first.
pub mod Names
pub mod Exits
pub mod Shutdown
pub mod Launch
pub mod Init
pub mod Invoke
pub mod Handlers
pub mod Reset
pub mod Restore
use lambda_runtime_init.Base.{
  ℕ, ◌+◌, ◌%◌, ◌^◌, Bool, true, false, ◌&&◌, Option, none, some, List, [], ◌∷◌, String, str_eq,
  if◌then◌else◌, get_elem?, set, ◌==◌,
}
use lambda_runtime_init.Base.Int.{ℤ}
use lambda_runtime_init.Core.Error.{Error}
use lambda_runtime_init.Core.Thread.{Object, Outcome}
use lambda_runtime_init.Core.Runtime.{Runtime}
use lambda_runtime_init.Core.Runtime
use lambda_runtime_init.Core.ExternalAgent.{ExternalAgent}
use lambda_runtime_init.Core.ExternalAgent
use lambda_runtime_init.Core.ExternalAgent.Methods as External
use lambda_runtime_init.Core.InternalAgent.{InternalAgent}
use lambda_runtime_init.Core.InternalAgent
use lambda_runtime_init.Core.AgentsMap.{AgentRef}
use lambda_runtime_init.Core.Registrations.{Memory, RegistrationService}
use lambda_runtime_init.Core.Registrations.Queries.{AgentInfo}
use lambda_runtime_init.Core.Credentials.{CredentialsService}
use lambda_runtime_init.Appctx.{ApplicationContext}

-- A process by its name: `runtime-<generation>`, `extension-<name>-<generation>`, or any other text.
pub data ProcessName : Type 0 where
  runtime_process : ℕ → ProcessName
  extension_process : String → ℕ → ProcessName
  other_process : String → ProcessName

unfoldable pub same_process : ProcessName → ProcessName → Bool
same_process (runtime_process g) (runtime_process h) = g == h
same_process (extension_process a g) (extension_process b h) = str_eq a b && g == h
same_process (other_process a) (other_process b) = str_eq a b
same_process _ _ = false

pub data Phase : Type 0 where
  lifecycle_phase_init lifecycle_phase_invoke : Phase

-- `telemetry.RuntimeDoneSuccess` and the others.
pub data Status : Type 0 where
  runtime_done_success runtime_done_error runtime_done_failure runtime_done_timeout : Status

-- Calls to other parties; an error type is `none` for nil.
pub data Output : Type 0 where
  executes terminates kills : ProcessName → Output
  sends_init_start sends_init_report : Phase → Output
  sends_init_runtime_done : Status → Phase → Option (List ℕ) → Output
  sends_extension_init : AgentInfo → Output
  sends_image_error_log : Output
  sends_invoke_start : String → Output
  sends_invoke_runtime_done : Status → Option (List ℕ) → Output
  sends_restore_runtime_done : Status → Option (List ℕ) → Output
  sends_runtime_ready : Output
  turns_off_subscriptions clears_subscriptions : Output

-- The renderer of events. A shutdown has its deadline in milliseconds and its reason.
pub data Renderer : Type 0 where
  no_renderer restore_renderer : Renderer
  invoke_renderer : String → Renderer
  shutdown_renderer : ℤ → String → Renderer

-- `shutdownContext`: an exited channel is true once it is closed.
pub record ShutdownContext : Type 0 where
  pub shutting_down : Bool
  pub agents_awaiting_exit : List (ProcessName × AgentRef)
  pub runtime_domain_exited : List (ProcessName × Bool)

-- What is fixed when the sandbox is built; `is_permission` is `os.IsPermission`.
pub record Settings : Type 0 where
  pub extensions_enabled : Bool
  pub standalone_mode : Bool
  pub telemetry_api_enabled : Bool
  pub init_caching_enabled : Bool
  pub is_permission : Error → Bool

-- The flows are those of the registration service, which shares them.
pub record Rapid : Type 0 where
  pub app : ApplicationContext
  pub init_done : Bool
  pub runtime_domain_generation : ℕ  -- uint32
  pub memory : Memory
  pub service : RegistrationService
  pub renderer : Renderer
  pub credentials : CredentialsService
  pub shutdown : ShutdownContext
  pub log_stream_name : String
  pub outputs : List Output

abbrev pub output : Output → Rapid → Rapid
output o r = record r { outputs = o ∷ r.outputs }

abbrev pub output_if : Bool → Output → Rapid → Rapid
output_if b o r = if b then output o r else r

unfoldable pub next_generation : Rapid → Rapid
next_generation r = record r {
  runtime_domain_generation = (r.runtime_domain_generation + 1) % 2 ^ 32;
}

abbrev pub saved : ℕ → Rapid → Object ExternalAgent × Outcome → Rapid
saved address r (o, out) = record r {
  memory = record r.memory { externals = set r.memory.externals address o.self };
  service = record r.service { init_flow = o.init_flow; invoke_flow = o.invoke_flow };
}

-- A method of an agent whose refusal is only logged. An address that dangles cannot occur in Go.
unfoldable pub call_agent : (Error → Bool) → External.Call → ℕ → AgentRef → Rapid → Rapid
unfolding External.call
call_agent is_permission c now a r = elim (get_elem? r.memory.externals a.address) [
  | none ↦ r
  | some agent ↦ saved a.address r (
      External.call is_permission c now now (record {
        self = agent;
        init_flow = r.service.init_flow;
        invoke_flow = r.service.invoke_flow;
      }))
]

unfoldable pub release_external : AgentRef → Rapid → Rapid
unfolding ExternalAgent.release
release_external a r = elim (get_elem? r.memory.externals a.address) [
  | none ↦ r
  | some agent ↦ record r {
    memory = record r.memory {
      externals = set r.memory.externals a.address (ExternalAgent.release agent);
    };
  }
]

unfoldable pub release_internal : AgentRef → Rapid → Rapid
unfolding InternalAgent.release
release_internal a r = elim (get_elem? r.memory.internals a.address) [
  | none ↦ r
  | some agent ↦ record r {
    memory = record r.memory {
      internals = set r.memory.internals a.address (InternalAgent.release agent);
    };
  }
]

unfoldable pub release_runtime : ℕ → Rapid → Rapid
unfolding Runtime.release
release_runtime address r = elim (get_elem? r.memory.runtimes address) [
  | none ↦ r
  | some runtime ↦ record r {
    memory = record r.memory { runtimes = set r.memory.runtimes address (Runtime.release runtime) };
  }
]
