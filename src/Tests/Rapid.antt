-- ===== src/Tests/Rapid.antt =====
-- Concrete inputs for internal/lambda/rapid.
use lambda_runtime_init.Base.{
  ℕ, ◌≡◌, ◌≢◌, ◌↔◌, refl, true, false, none, some, List, [], ◌∷◌, String, codes, if◌then◌else◌, leb,
  length, subst,
}
use lambda_runtime_init.Base.Int.{pos}
use lambda_runtime_init.Core.Error.{reset_received, other}
use lambda_runtime_init.Core.InitFlow
use lambda_runtime_init.Core.InitFlow.{gate_answered, await_runtime_ready, Select}
use lambda_runtime_init.Core.Gate.{passed, await_gate_condition, walk_through}
use lambda_runtime_init.Core.Registrations.{cancel_flows}
use lambda_runtime_init.Core.Registrations.Agents
use lambda_runtime_init.Appctx.{
  store_first_fatal_error, load, load_first_fatal_error, found, first_fatal_error_key,
}
use lambda_runtime_init.Fatalerror.{runtime_exit}
use lambda_runtime_init.Rapid.{runtime_process, lifecycle_phase_init, Settings, Rapid, same_process}
use lambda_runtime_init.Rapid.Names.{
  get_extension_names, get_extension_names-fitting, join, fitting, max_extension_names_length,
}
use lambda_runtime_init.Rapid.Exits.{Termination, process_terminated, watch_event, exit_error}
use lambda_runtime_init.Rapid.Shutdown.{
  Step, handles, cancels, Request, shutdown_begins, awaits_exits, shut_down, ShutdownPc, all_closed,
}
use lambda_runtime_init.Rapid.Shutdown.History.{run}
use lambda_runtime_init.Rapid.Shutdown.Ends.{run-ending, ending, HasEnded}
use lambda_runtime_init.Rapid.Launch.{Launch}
use lambda_runtime_init.Rapid.Init.{
  init_begins, init_resumes, awaits_runtime, Progress, waits, ended,
}
use lambda_runtime_init.Rapid.Init.Result.{Sound, reports}
use lambda_runtime_init.Rapid.Init.History.{
  Reach, Goes, here, next, resumed, others, moves, init-Sound,
}
use lambda_runtime_init.Rapid.Invoke.{awaits_runtime_response, invoke_ended, invoke_resumes}
use lambda_runtime_init.Rapid.Invoke.Failed.{crash-ends_invoke}
use lambda_runtime_init.Rapid.Handlers.{start, handle_invoke_error}
use lambda_runtime_init.Rapid.Reset.{reset_cancels}
use lambda_runtime_init.Rapid.Reset.Ends.{reset-ends_invoke}
use lambda_runtime_init.Rapid.Restore.{restore_resumes, restored}
use lambda_runtime_init.Rapid.Restore.Laws.{restore_resumes-succeeds}

abbrev settings : Settings
settings = record {
  extensions_enabled = true;
  standalone_mode = false;
  telemetry_api_enabled = false;
  init_caching_enabled = false;
  is_permission = λ e. false;
}

abbrev launch : Launch
launch = record {
  agents = [];
  sandbox_type = [];
  runtime_now = 5;
  cmd_failure = none;
  cwd_failure = none;
  sockets_error = none;
  exec_failure = none;
}

abbrev fresh : Rapid
fresh = start settings 1

-- An init without extensions: it waits for the runtime, which gets ready; then it goes on to its end.
abbrev plain : Settings
plain = record settings { extensions_enabled = false }

abbrev waiting : Rapid
waiting = (init_begins plain lifecycle_phase_init launch fresh).0

abbrev ready_flow : InitFlow.InitFlow
ready_flow = (InitFlow.runtime_restore_ready waiting.service.init_flow).0

abbrev got_ready : Rapid
got_ready = record waiting {
  memory = waiting.memory;
  service = record waiting.service {
    init_flow = ready_flow;
    invoke_flow = waiting.service.invoke_flow;
  };
}

abbrev after_init : Rapid × Progress
after_init = init_resumes plain lifecycle_phase_init launch awaits_runtime got_ready

begun-waits : init_begins plain lifecycle_phase_init launch fresh ≡ (waiting, waits awaits_runtime)
unfolding init_begins start
begun-waits = refl

init-path :
    Reach plain lifecycle_phase_init launch
      (init_begins plain lifecycle_phase_init launch fresh)
      after_init
init-path =
    let came : Goes plain lifecycle_phase_init launch (waiting, waits awaits_runtime)
        (got_ready, waits awaits_runtime) =
      others (moves waiting.memory ready_flow waiting.service.invoke_flow refl) in
    next
      (next
        (subst
          (Reach plain lifecycle_phase_init launch
            (init_begins plain lifecycle_phase_init launch fresh))
          begun-waits here)
        came)
      (resumed refl)

init_ends : after_init.1 ≡ ended none
unfolding init_begins init_resumes start await_gate_condition InitFlow.runtime_restore_ready
    walk_through
init_ends = refl

init-Sound_example : Sound fresh.init_done (reports fresh.outputs) after_init
init-Sound_example = init-Sound plain lifecycle_phase_init launch fresh after_init init-path

-- A sandbox whose runtime was started.
abbrev running : Rapid
running = record fresh {
  shutdown = record {
    shutting_down = false;
    agents_awaiting_exit = [];
    runtime_domain_exited = (runtime_process 0, false) ∷ [];
  };
  runtime_domain_generation = 0;
}

abbrev exit : Termination
exit = record { name = runtime_process 0; exit_status = some (pos 1); text = "exit status 1" }

abbrev formatted : String → String
formatted text = text

abbrev closed_channel : Rapid → Rapid
closed_channel r = record r {
  shutdown = record r.shutdown { runtime_domain_exited = (runtime_process 0, true) ∷ [] };
}

abbrev crashed : Rapid
crashed = record (closed_channel running) {
  app = store_first_fatal_error runtime_exit running.app;
  service = cancel_flows (some (other "exit status 1")) running.service;
}

watched : watch_event settings formatted (process_terminated exit) 7 running ≡ some crashed
unfolding watch_event start
watched = refl

uncancelled : running.service.cancelled ≡ false
unfolding start
uncancelled = refl

clean : load first_fatal_error_key running.app ≡ none
unfolding start load
clean = refl

abbrev names : String → List ℕ
names text = codes text

crash-ends_invoke_example :
    ((invoke_resumes settings "i" launch awaits_runtime_response crashed).1
      ≡ invoke_ended (some (exit_error formatted 0 exit)))
    × ((handle_invoke_error settings names
          (exit_error formatted 0 exit)
          (invoke_resumes settings "i" launch awaits_runtime_response crashed).0).error_type
        ≡ runtime_exit)
unfolding same_process Agents.run cancel_flows
crash-ends_invoke_example =
    crash-ends_invoke settings formatted exit 7 running crashed crashed running.memory [] "i" launch
      awaits_runtime_response names refl uncancelled clean watched tt refl refl

reset-ends_invoke_example :
    ((invoke_resumes settings "i" launch awaits_runtime_response (reset_cancels running)).1
      ≡ invoke_ended (some reset_received))
    × ((handle_invoke_error settings names reset_received
          (invoke_resumes settings "i" launch awaits_runtime_response
            (reset_cancels running)).0).reset_received
        ≡ true)
    × ((handle_invoke_error settings names reset_received
          (invoke_resumes settings "i" launch awaits_runtime_response
            (reset_cancels running)).0).request_reset
        ≡ true)
unfolding Agents.run reset_cancels
reset-ends_invoke_example =
    reset-ends_invoke settings running (reset_cancels running) running.memory [] "i" launch
      awaits_runtime_response names uncancelled tt refl

abbrev request : Request
request = record { agents_deadline_ns = 2000; reason = "spindown" }

-- With no agents the runtime is killed at once; then it exits.
abbrev killed : Rapid × ShutdownPc
killed = shutdown_begins request running

abbrev exits : List Step
exits = handles exit 8 ∷ cancels none ∷ []

abbrev after_exit : Rapid × ShutdownPc
after_exit = (
  record (closed_channel killed.0) { service = cancel_flows none killed.0.service },
  awaits_exits,
)

all-closed : all_closed after_exit.0.shutdown.runtime_domain_exited ≡ true
all-closed = refl

not_over : awaits_exits ≢ shut_down
not_over h = cc

run-ending_example :
    (w : Rapid × ShutdownPc) × (run settings request
        (ending after_exit.0 awaits_exits)
        (after_exit.0, awaits_exits)
      ≡ some w)
    × HasEnded w
run-ending_example = run-ending settings request after_exit.0 awaits_exits all-closed not_over

abbrev some_names : List (List ℕ)
some_names = codes "a" ∷ codes "bc" ∷ []

get_extension_names-fitting_example : get_extension_names some_names ≡ (
    if leb (length (join some_names)) max_extension_names_length
    then join some_names
    else join (fitting max_extension_names_length some_names))
get_extension_names-fitting_example =
    get_extension_names-fitting some_names ((refl, tt), ((refl, (refl, tt)), tt))

two_names : get_extension_names some_names ≡ codes "a;bc"
unfolding get_extension_names
two_names = refl

restore_resumes-succeeds_example : ((restore_resumes gate_answered running).1 ≡ restored none) ↔ (
    ◌≡◌ {A = Select} gate_answered gate_answered
    × (await_runtime_ready running.service.init_flow ≡ passed none)
    × ((t : List ℕ) → load_first_fatal_error running.app ≢ found t))
restore_resumes-succeeds_example = restore_resumes-succeeds gate_answered running
