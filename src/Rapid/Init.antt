-- ===== src/Rapid/Init.antt =====
-- internal/lambda/rapid/handlers.go: `doInitExtensions` (its loop is Launch), `doRuntimeBootstrap`
-- and `doRuntimeDomainInit`. The init is a step up to each of its three waits, and one more each time that
-- the main thread is woken there.
pub mod Crash
pub mod Result
pub mod Sound
pub mod History
use lambda_runtime_init.Base.{
  ℕ, ◌+◌, Bool, true, false, ◌&&◌, Option, none, some, List, [], ◌∷◌, ◌++◌, String, if◌then◌else◌,
  ltb, length, u16, ◌==◌,
}
use lambda_runtime_init.Core.Error.{Error, too_many_extensions}
use lambda_runtime_init.Core.Gate.{Await, blocked, passed}
use lambda_runtime_init.Core.InitFlow
use lambda_runtime_init.Core.Runtime.Methods.{new_runtime}
use lambda_runtime_init.Core.ExternalAgent.Methods as External
use lambda_runtime_init.Core.AgentsMap.{AgentRef}
use lambda_runtime_init.Core.Registrations.{
  RegistrationService, Created, created, failed, create_external_agent, count_agents, turn_off,
  preregister_runtime, get_registered_agents_size, max_agents_allowed,
}
use lambda_runtime_init.Core.Registrations.Queries.{AgentInfo, agents_info}
use lambda_runtime_init.Appctx.{
  ApplicationContext, store_first_fatal_error, load_first_fatal_error, store_sandbox_type, absent,
  mistyped, found,
}
use lambda_runtime_init.Fatalerror.{
  agent_launch_error, invalid_entrypoint, invalid_working_dir, runtime_unknown,
}
use lambda_runtime_init.Rapid.{
  ProcessName, runtime_process, extension_process, Phase, Status, runtime_done_success,
  runtime_done_error, Output, executes, sends_init_start, sends_init_report,
  sends_init_runtime_done, sends_extension_init, sends_image_error_log, turns_off_subscriptions,
  Settings, Rapid, output, output_if, next_generation, call_agent,
}
use lambda_runtime_init.Rapid.Exits.{create_exited_channel}
use lambda_runtime_init.Rapid.Launch.{
  AgentLaunch, Failure, Launch, report_launch_error, Launched, launched, refused, launch_panicked,
  channelled, executed, socketed, exec_agent, with_made, launch_agent, next_launch, launch_agents,
}

-- The gate at which an init waits.
pub data InitPc : Type 0 where
  awaits_extensions awaits_runtime awaits_agents : InitPc

pub data Progress : Type 0 where
  waits : InitPc → Progress
  ended : Option Error → Progress
  panicked : Progress

-- `getFirstFatalError`; `mistyped` cannot occur, since only errors are stored under the key.
unfoldable pub get_first_fatal_error : Status → ApplicationContext → Option (List ℕ)
unfolding load_first_fatal_error runtime_unknown
get_first_fatal_error runtime_done_success app = none
get_first_fatal_error status app = elim (load_first_fatal_error app) [
  | found t ↦ some t
  | absent ↦ some runtime_unknown
  | mistyped ↦ some runtime_unknown
]

abbrev pub log_each : List AgentInfo → Rapid → Rapid
log_each [] r = r
log_each (i ∷ more) r = log_each more (output (sends_extension_init i) r)

unfoldable pub log_agents_init_status : Rapid → Rapid
unfolding agents_info
log_agents_init_status r = log_each (agents_info r.memory r.service) r

-- The deferred calls of an init whose runtime was not executed.
unfoldable pub finish : Settings → Phase → Option Error → Rapid → Rapid × Progress
unfolding log_agents_init_status
finish c phase err r =
    let logged = if c.extensions_enabled then log_agents_init_status r else r in
    (output (sends_init_report phase) logged, ended err)

-- `sendInitRuntimeDoneLogEvent`.
abbrev pub runtime_done : Phase → Status → Rapid → Rapid
runtime_done phase status r =
    output (sends_init_runtime_done status phase (get_first_fatal_error status r.app)) r

-- The deferred calls from then on.
unfoldable pub finish_done : Settings → Phase → Status → Option Error → Rapid → Rapid × Progress
unfolding finish get_first_fatal_error
finish_done c phase status err r = finish c phase err (runtime_done phase status r)

-- The fatal error of a failed bootstrap: the cached one, which is logged, or a default.
unfoldable pub store_failure : Failure → List ℕ → Rapid → Rapid
unfolding store_first_fatal_error
store_failure f default r = elim f.cached [
  | some t ↦ output sends_image_error_log (record r { app = store_first_fatal_error t r.app })
  | none ↦ record r { app = store_first_fatal_error default r.app }
]

abbrev pub runtime_channel : Option Rapid → Rapid → Rapid × Progress
runtime_channel none r = (r, panicked)
runtime_channel (some r') r = (r', waits awaits_runtime)

-- After the `Exec` of the runtime.
abbrev pub runtime_executed : Settings → Phase → Option Failure → Rapid → Rapid × Progress
runtime_executed c phase (some f) r =
    finish_done c phase runtime_done_error (some f.err) (store_failure f invalid_entrypoint r)
runtime_executed c phase none r =
    runtime_channel (create_exited_channel (runtime_process r.runtime_domain_generation) r) r

-- After `GetRuntimeSockets`.
abbrev pub runtime_socketed : Settings → Phase → Launch → Option Error → Rapid → Rapid × Progress
runtime_socketed c phase l (some err) r = finish c phase (some err) r
runtime_socketed c phase l none r =
    runtime_executed c phase l.exec_failure
      (output (executes (runtime_process r.runtime_domain_generation)) r)

-- A failure of the bootstrap, or what follows it.
abbrev pub unless_failed :
    Settings
    → Phase
    → Option Failure
    → List ℕ
    → (Rapid → Rapid × Progress)
    → Rapid
    → Rapid × Progress
unless_failed c phase (some f) default next r =
    finish c phase (some f.err) (store_failure f default r)
unless_failed c phase none default next r = next r

-- From the bootstrap on.
unfoldable pub exec_runtime : Settings → Phase → Launch → Rapid → Rapid × Progress
unfolding finish finish_done store_failure create_exited_channel
exec_runtime c phase l r =
    unless_failed c phase l.cmd_failure invalid_entrypoint
      (unless_failed c phase l.cwd_failure invalid_working_dir
        (runtime_socketed c phase l l.sockets_error))
      r

-- An error ends the init.
abbrev pub unless_error :
    Settings → Phase → (Rapid → Rapid × Progress) → Rapid × Option Error → Rapid × Progress
unless_error c phase next (r, some e) = finish c phase (some e) r
unless_error c phase next (r, none) = next r

-- What follows the wait for the extensions.
unfoldable pub start_runtime : Settings → Phase → Launch → Rapid → Rapid × Progress
unfolding store_sandbox_type new_runtime preregister_runtime exec_runtime finish
start_runtime c phase l r =
    let address = length r.memory.runtimes in
    let (service, err) = preregister_runtime address r.service in
    unless_error c phase (exec_runtime c phase l) (
      record r {
        app = store_sandbox_type l.sandbox_type r.app;
        memory = record r.memory { runtimes = r.memory.runtimes ++ new_runtime l.runtime_now ∷ [] };
        service = service;
      },
      err,
    )

-- A call of the init flow.
abbrev pub init_flow_call :
    (InitFlow.InitFlow → InitFlow.InitFlow × Option Error) → Rapid → Rapid × Option Error
init_flow_call f r =
    let (flow, err) = f r.service.init_flow in
    (record r { service = record r.service { init_flow = flow } }, err)

abbrev pub after_launches : Settings → Phase → Rapid × Launched → Rapid × Progress
after_launches c phase (r, launched) = (r, waits awaits_extensions)
after_launches c phase (r, refused e) = finish c phase (some e) r
after_launches c phase (r, launch_panicked) = (r, panicked)

-- `doInitExtensions` up to its wait, with the return of its caller.
unfoldable pub init_extensions : Settings → Phase → Launch → Rapid → Rapid × Progress
unfolding launch_agents finish InitFlow.set_external_agents_register_count
init_extensions c phase l r =
    let count = u16 (length l.agents) in
    unless_error c phase (λ s. after_launches c phase (launch_agents c l.agents s))
      (init_flow_call (λ f. InitFlow.set_external_agents_register_count f count) r)

unfoldable pub init_begins : Settings → Phase → Launch → Rapid → Rapid × Progress
unfolding next_generation start_runtime init_extensions
init_begins c phase l r =
    let begun = next_generation (output (sends_init_start phase) r) in
    if c.extensions_enabled then init_extensions c phase l begun else start_runtime c phase l begun

-- The end of an init that meets no error.
unfoldable pub complete : Settings → Phase → Rapid → Rapid × Progress
unfolding finish_done
complete c phase r =
    let off = output_if c.telemetry_api_enabled turns_off_subscriptions r in
    finish_done c phase runtime_done_success none (record off { init_done = true })

abbrev pub counted : Settings → Phase → Rapid × Option Error → Rapid × Progress
counted c phase (r, some e) = finish_done c phase runtime_done_success (some e) r
counted c phase (r, none) = (r, waits awaits_agents)

-- The gate of the agents is given their number. The status stays that of a success if it is refused.
unfoldable pub count_ready_agents : Settings → Phase → Rapid → Rapid × Progress
unfolding get_registered_agents_size finish_done InitFlow.set_agents_ready_count
count_ready_agents c phase r =
    let size = get_registered_agents_size r.service in
    counted c phase (init_flow_call (λ f. InitFlow.set_agents_ready_count f size) r)

-- What follows the wait for the runtime.
unfoldable pub await_agents : Settings → Phase → Rapid → Rapid × Progress
unfolding turn_off complete count_ready_agents
await_agents c phase r =
    let closed = record r { service = turn_off r.service } in
    if c.extensions_enabled then count_ready_agents c phase closed else complete c phase closed

-- What a woken thread does by what it finds at its gate.
abbrev pub at_gate :
    InitPc
    → Await
    → (Error → Rapid → Rapid × Progress)
    → (Rapid → Rapid × Progress)
    → Rapid
    → Rapid × Progress
at_gate pc blocked fails goes_on r = (r, waits pc)
at_gate pc (passed (some e)) fails goes_on r = fails e r
at_gate pc (passed none) fails goes_on r = goes_on r

abbrev pub fails_done : Settings → Phase → Error → Rapid → Rapid × Progress
fails_done c phase e r = finish_done c phase runtime_done_error (some e) r

-- The main thread is woken at its gate.
unfoldable pub init_resumes : Settings → Phase → Launch → InitPc → Rapid → Rapid × Progress
unfolding InitFlow.await_external_agents_registered InitFlow.await_runtime_restore_ready
    InitFlow.await_agents_ready start_runtime await_agents complete finish finish_done
init_resumes c phase l awaits_extensions r =
    at_gate awaits_extensions (InitFlow.await_external_agents_registered r.service.init_flow)
      (λ e s. finish c phase (some e) s) (start_runtime c phase l) r
init_resumes c phase l awaits_runtime r =
    at_gate awaits_runtime (InitFlow.await_runtime_restore_ready r.service.init_flow)
      (fails_done c phase) (await_agents c phase) r
init_resumes c phase l awaits_agents r =
    at_gate awaits_agents (InitFlow.await_agents_ready r.service.init_flow) (fails_done c phase)
      (complete c phase) r
