-- ===== src/Rapid/Launch.antt =====
-- internal/lambda/rapid/handlers.go: the launch of the extensions, the loop of `doInitExtensions`.
use lambda_runtime_init.Base.{ℕ, Option, none, some, List, [], ◌∷◌, String, if◌then◌else◌, ltb}
use lambda_runtime_init.Core.Error.{Error, too_many_extensions}
use lambda_runtime_init.Core.ExternalAgent.Methods as External
use lambda_runtime_init.Core.AgentsMap.{AgentRef}
use lambda_runtime_init.Core.Registrations.{
  Created, created, failed, create_external_agent, count_agents, max_agents_allowed,
}
use lambda_runtime_init.Appctx.{store_first_fatal_error}
use lambda_runtime_init.Fatalerror.{agent_launch_error}
use lambda_runtime_init.Rapid.{extension_process, executes, Settings, Rapid, output, call_agent}
use lambda_runtime_init.Rapid.Exits.{create_exited_channel}

-- An extension to launch: the base of its path, what `CreateExternalAgent` takes from outside, and
-- the errors of `GetExtensionSockets` and of the supervisor.
pub record AgentLaunch : Type 0 where
  pub name : String
  pub id : String
  pub now : ℕ
  pub sockets_error : Option Error
  pub exec_error : Option Error

-- An error of the runtime's bootstrap, with the type that `CachedFatalError` has for it.
pub record Failure : Type 0 where
  pub err : Error
  pub cached : Option (List ℕ)

-- What one init meets outside.
pub record Launch : Type 0 where
  pub agents : List AgentLaunch
  pub sandbox_type : List ℕ
  pub runtime_now : ℕ
  pub cmd_failure : Option Failure
  pub cwd_failure : Option Failure
  pub sockets_error : Option Error
  pub exec_failure : Option Failure

unfoldable pub report_launch_error : Settings → AgentRef → Error → ℕ → Rapid → Rapid
unfolding call_agent store_first_fatal_error
report_launch_error c a err now r =
    let called = call_agent c.is_permission (External.launch_errors err) now a r in
    record called { app = store_first_fatal_error agent_launch_error called.app }

-- What came of a launch.
pub data Launched : Type 0 where
  launched : Launched
  refused : Error → Launched
  launch_panicked : Launched

abbrev pub channelled : Rapid → Option Rapid → Rapid × Launched
channelled r none = (r, launch_panicked)
channelled r (some r') = (r', launched)

-- After `Exec`.
abbrev pub executed : Settings → AgentLaunch → AgentRef → Option Error → Rapid → Rapid × Launched
executed c l a (some err) r = (report_launch_error c a err l.now r, refused err)
executed c l a none r =
    channelled r (create_exited_channel (extension_process l.name r.runtime_domain_generation) r)

-- After `GetExtensionSockets`.
abbrev pub socketed : Settings → AgentLaunch → AgentRef → Option Error → Rapid → Rapid × Launched
socketed c l a (some err) r = (r, refused err)
socketed c l a none r =
    executed c l a l.exec_error
      (output (executes (extension_process l.name r.runtime_domain_generation)) r)

-- One round of the loop, once the agent is made.
unfoldable pub exec_agent : Settings → AgentLaunch → AgentRef → Rapid → Rapid × Launched
unfolding report_launch_error create_exited_channel
exec_agent c l a r =
    if ltb max_agents_allowed (count_agents r.service)
    then (report_launch_error c a too_many_extensions l.now r, refused too_many_extensions)
    else socketed c l a l.sockets_error r

-- After `CreateExternalAgent`.
abbrev pub with_made : Settings → AgentLaunch → Created → Rapid → Rapid × Launched
with_made c l (failed err) r = (r, refused err)
with_made c l (created a) r = exec_agent c l a r

unfoldable pub launch_agent : Settings → AgentLaunch → Rapid → Rapid × Launched
unfolding create_external_agent exec_agent
launch_agent c l r =
    let (memory, service, made) = create_external_agent l.name l.id l.now r.memory r.service in
    with_made c l made (record r { memory = memory; service = service })

-- The loop ends with the first launch that is refused.
abbrev pub next_launch : Rapid × Launched → Rapid × Launched → Rapid × Launched
next_launch (r, launched) rest = rest
next_launch (r, refused err) rest = (r, refused err)
next_launch (r, launch_panicked) rest = (r, launch_panicked)

unfoldable pub launch_agents : Settings → List AgentLaunch → Rapid → Rapid × Launched
launch_agents c [] r = (r, launched)
launch_agents c (l ∷ more) r =
    let first = launch_agent c l r in next_launch first (launch_agents c more first.0)
