-- ===== src/Rapid/Shutdown.antt =====
-- internal/lambda/rapid/shutdown.go, less the channels and events of Exits. `shutdown` is a step up to each
-- of its waits; the goroutines that it starts for the extensions are the entries of a list, and each
-- of them is a step of its own, as is an event of the supervisor.
pub mod Channels
pub mod Watch
pub mod History
pub mod Gone
pub mod Order
pub mod Ends
use lambda_runtime_init.Base.{
  ℕ, zero, suc, ◌/◌, ◌*◌, ◌-◌, Bool, true, false, not, ◌&&◌, Option, none, some, List, [], ◌∷◌,
  ◌++◌, String, if◌then◌else◌, ◌==◌, get_elem?, erase_idx, set, length, ltb,
}
use lambda_runtime_init.Base.Int.{ℤ, pos, negsuc, ◌-ℤ◌, wrap64, ltb_ℤ}
use lambda_runtime_init.Core.Error.{Error, other}
use lambda_runtime_init.Core.Agent.{shutdown_event}
use lambda_runtime_init.Core.ExternalAgent.Methods as External
use lambda_runtime_init.Core.AgentsMap.{AgentRef}
use lambda_runtime_init.Core.Registrations.{RegistrationService, count_agents, cancel_flows, Memory}
use lambda_runtime_init.Core.Registrations.Queries.{get_external_agents}
use lambda_runtime_init.Core.ExternalAgent.Methods.{is_subscribed}
use lambda_runtime_init.Appctx.{
  ApplicationContext, store_first_fatal_error, delete, first_fatal_error_key,
}
use lambda_runtime_init.Fatalerror.{runtime_exit, agent_crash}
use lambda_runtime_init.Rapid.{
  ProcessName, runtime_process, extension_process, same_process, Output, terminates, kills,
  Renderer, shutdown_renderer, ShutdownContext, Settings, Rapid, output, call_agent,
  release_external,
}
use lambda_runtime_init.Rapid.Exits.{
  note_exit, handle_process_exit, Termination, find_process, put_process, new_shutdown_context,
  with_shutdown, set_shutting_down, get_exited_channel, create_exited_channel, close_channel,
  success, Event, event_loss, process_terminated, exit_error, exit_type, cancelled_with,
  watch_event,
}

-- A goroutine that `shutdownAgents` starts.
pub data Goroutine : Type 0 where
  releases : ProcessName → AgentRef → Goroutine
  waits kills_agent : ProcessName → Goroutine

-- Where `shutdown` waits.
pub data ShutdownPc : Type 0 where
  awaits_runtime : ProcessName → ShutdownPc
  awaits_agents : List Goroutine → ShutdownPc
  awaits_exits : ShutdownPc
  shut_down : ShutdownPc

-- The loop over the external agents; a dangling address cannot occur in Go.
unfoldable pub start_goroutines :
    ℕ → List AgentRef → Rapid → List (ProcessName × AgentRef) × List Goroutine
unfolding get_exited_channel put_process is_subscribed
start_goroutines generation [] r = ([], [])
start_goroutines generation (a ∷ more) r =
    let name = extension_process a.name generation in
    let rest = start_goroutines generation more r in
    elim (get_exited_channel name r) [
      | none ↦ rest
      | some _ ↦ elim (get_elem? r.memory.externals a.address) [
        | none ↦ rest
        | some agent ↦
            if is_subscribed agent shutdown_event
            then ((name, a) ∷ rest.0, releases name a ∷ rest.1)
            else (rest.0, kills_agent name ∷ rest.1)
      ]
    ]

-- What is fixed for one shutdown: the deadline of the agents, in nanoseconds since the epoch.
pub record Request : Type 0 where
  pub agents_deadline_ns : ℕ
  pub reason : String

-- `shutdownAgents`, up to its wait for the goroutines.
unfoldable pub shutdown_agents : Request → Rapid → Rapid × ShutdownPc
unfolding start_goroutines get_external_agents
shutdown_agents q r =
    let (awaiting, goroutines) =
      start_goroutines r.runtime_domain_generation (get_external_agents r.service) r in
    (
      with_shutdown (λ s. record s { agents_awaiting_exit = awaiting })
          (record r {
            renderer = shutdown_renderer (pos (q.agents_deadline_ns / 1_000_000)) q.reason;
          }),
      awaits_agents goroutines,
    )

-- `shutdownRuntime`, up to its wait, and what follows where it has none.
unfoldable pub shutdown_runtime : Request → Rapid → Rapid × ShutdownPc
unfolding get_exited_channel shutdown_agents
shutdown_runtime q r =
    let name = runtime_process r.runtime_domain_generation in
    elim (get_exited_channel name r) [
      | some _ ↦ (output (terminates name) r, awaits_runtime name)
      | none ↦ shutdown_agents q r
    ]

abbrev pub kill_runtime : ProcessName → Rapid → Rapid
kill_runtime name r = elim (get_exited_channel name r) [ some _ ↦ output (kills name) r | none ↦ r ]

-- `shutdown`, up to its first wait.
unfoldable pub shutdown_begins : Request → Rapid → Rapid × ShutdownPc
unfolding set_shutting_down delete count_agents get_exited_channel shutdown_runtime
shutdown_begins q r =
    let begun = record (set_shutting_down true r) { app = delete first_fatal_error_key r.app } in
    if count_agents begun.service == 0
    then (kill_runtime (runtime_process begun.runtime_domain_generation) begun, awaits_exits)
    else shutdown_runtime q begun

-- Which channel a `select` reads: that of the exit, or that of the deadline.
pub data Select : Type 0 where
  exited_channel deadline_channel : Select

-- A goroutine at its next statement: it is done (`none`), or goes on. It waits where neither channel
-- can be read; only in standalone mode there is a deadline.
unfoldable pub goroutine_step : Settings → Select → Goroutine → Rapid → Rapid × Option Goroutine
unfolding release_external get_exited_channel
goroutine_step c select (releases name a) r = (release_external a r, some (waits name))
goroutine_step c exited_channel (waits name) r = elim (get_exited_channel name r) [
  | some true ↦ (r, none)
  | some false ↦ (r, some (waits name))
  | none ↦ (r, none)
]
goroutine_step c deadline_channel (waits name) r =
    if c.standalone_mode then (output (kills name) r, none) else (r, some (waits name))
goroutine_step c select (kills_agent name) r = (output (kills name) r, none)

abbrev pub put_back : List Goroutine → ℕ → Option Goroutine → List Goroutine
put_back gs i none = erase_idx gs i
put_back gs i (some g) = set gs i g

abbrev pub all_closed : List (ProcessName × Bool) → Bool
all_closed [] = true
all_closed ((name, closed) ∷ m) = closed && all_closed m

-- `clearExitedChannel`: its loop has read every channel, or the time is out and nothing is cleared.
unfoldable pub clear_exited_channel : Select → Rapid → Option Rapid
clear_exited_channel exited_channel r =
    if all_closed r.shutdown.runtime_domain_exited
    then some (with_shutdown (λ s. record s { runtime_domain_exited = [] }) r)
    else none
clear_exited_channel deadline_channel r = some r

-- The steps of a shutdown: one of its own or of a goroutine; a part of a round of `watchEvents`, whose
-- test of `isShuttingDown` may be long ago; or what the handlers of the APIs do meanwhile to the
-- context, the agents and the registrations. Their order is free.
pub data Step : Type 0 where
  goes_on : Select → Step
  goroutine : ℕ → Select → Step
  loses : ℕ → Step
  notes : Termination → Step
  handles : Termination → ℕ → Step
  cancels : Option Error → Step
  requests : ApplicationContext → Memory → RegistrationService → Step

abbrev pub finished : Option Rapid → Rapid → Rapid × ShutdownPc
finished none r = (r, awaits_exits)
finished (some cleared) r = (set_shutting_down false cleared, shut_down)

-- The main thread's next statement after a wait, or the wait again.
unfoldable pub main_step : Request → Select → ShutdownPc → Rapid → Rapid × ShutdownPc
unfolding get_exited_channel shutdown_agents clear_exited_channel set_shutting_down
main_step q exited_channel (awaits_runtime name) r = elim (get_exited_channel name r) [
  | some true ↦ shutdown_agents q r
  | some false ↦ (r, awaits_runtime name)
  | none ↦ shutdown_agents q r
]
main_step q deadline_channel (awaits_runtime name) r = shutdown_agents q (output (kills name) r)
main_step q select (awaits_agents []) r = (r, awaits_exits)
main_step q select (awaits_agents (g ∷ gs)) r = (r, awaits_agents (g ∷ gs))
main_step q select awaits_exits r = finished (clear_exited_channel select r) r
main_step q select shut_down r = (r, shut_down)

abbrev pub stepped : List Goroutine → ℕ → Rapid × Option Goroutine → Rapid × ShutdownPc
stepped gs i (r, g) = (r, awaits_agents (put_back gs i g))

abbrev pub goroutine_at : Settings → Select → ℕ → ShutdownPc → Rapid → Rapid × ShutdownPc
goroutine_at c select i (awaits_agents gs) r = elim (get_elem? gs i) [
  | none ↦ (r, awaits_agents gs)
  | some g ↦ stepped gs i (goroutine_step c select g r)
]
goroutine_at c select i pc r = (r, pc)

abbrev pub watched : ShutdownPc → Option Rapid → Option (Rapid × ShutdownPc)
watched pc none = none
watched pc (some r) = some (r, pc)

-- `none` is a panic of the watcher of events, which ends the process.
unfoldable pub step : Settings → Request → Step → Rapid × ShutdownPc → Option (Rapid × ShutdownPc)
unfolding main_step goroutine_step note_exit handle_process_exit cancel_flows
step c q (goes_on select) (r, pc) = some (main_step q select pc r)
step c q (goroutine i select) (r, pc) = some (goroutine_at c select i pc r)
step c q (loses n) (r, pc) = none
step c q (notes t) (r, pc) = some (note_exit t r, pc)
step c q (handles t now) (r, pc) = watched pc (handle_process_exit c t now r)
step c q (cancels err) (r, pc) = some (record r { service = cancel_flows err r.service }, pc)
step c q (requests app memory service) (r, pc) =
    some (record r { app = app; memory = memory; service = service }, pc)
