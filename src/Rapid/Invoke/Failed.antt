-- ===== src/Rapid/Invoke/Failed.antt =====
-- internal/lambda/rapid: an exit of a process, or a reset, ends the invoke that waits.
use lambda_runtime_init.Base.{
  ℕ, ◌≡◌, refl, ap, ◌∙◌, false, Option, none, some, List, [], ◌∷◌, String, arith,
}
use lambda_runtime_init.Core.Error.{Error}
use lambda_runtime_init.Core.Gate.{passed}
use lambda_runtime_init.Core.Registrations.{Memory}
use lambda_runtime_init.Core.Registrations.Cancel.{AllAnswer}
use lambda_runtime_init.Core.Registrations.Agents.{Call, run}
use lambda_runtime_init.Core.Registrations.Limits.{NoClear}
use lambda_runtime_init.Core.Registrations.Queries.{AgentInfo, agents_info}
use lambda_runtime_init.Appctx.{
  load, first_fatal_error_key, load_first_fatal_error, store_first_fatal_error, found,
}
use lambda_runtime_init.Appctx.Laws.{store_first-stored, loaded-of}
use lambda_runtime_init.Fatalerror.{sandbox_failure}
use lambda_runtime_init.Rapid.{
  Phase, lifecycle_phase_invoke, sends_extension_init, runtime_done_error, Settings, Rapid, output,
}
use lambda_runtime_init.Rapid.Exits.{
  Termination, process_terminated, exit_error, exit_type, watch_event,
}
use lambda_runtime_init.Rapid.Shutdown.Watch.{watch_event-unexpected}
use lambda_runtime_init.Rapid.Launch.{Launch}
use lambda_runtime_init.Rapid.Init.{
  InitPc, awaits_extensions, awaits_runtime, awaits_agents, Progress, waits, ended, panicked,
}
use lambda_runtime_init.Rapid.Init.{
  log_each, log_agents_init_status, finish, finish_done, init_resumes, runtime_done,
}
use lambda_runtime_init.Rapid.Init.Crash.{init_resumes-failed, exit-AllAnswer}
use lambda_runtime_init.Rapid.Invoke.{
  InvokePc, inline_init, awaits_runtime_response, awaits_runtime_ready, awaits_agents_ready,
  invoke_ended, inline, invoke_resumes,
}
use lambda_runtime_init.Rapid.Handlers.{fatal_or, handle_invoke_error}

log-app : (is : List AgentInfo) (r : Rapid) → (log_each is r).app ≡ r.app
log-app [] r = refl
log-app (i ∷ is) r = log-app is (output (sends_extension_init i) r)

finish-app :
    (c : Settings) (phase : Phase) (e : Option Error) (r : Rapid)
    → (finish c phase e r).0.app ≡ r.app
unfolding finish log_agents_init_status
finish-app c phase e r = ground (arith, log-app (agents_info r.memory r.service) r)

init_failed-app :
    (c : Settings) (phase : Phase) (l : Launch) (pc : InitPc) (r : Rapid) (e : Error)
    → AllAnswer (passed (some e)) r.service
    → (init_resumes c phase l pc r).0.app ≡ r.app
unfolding init_resumes finish_done
init_failed-app c phase l awaits_extensions r e (a, _, _, _, _, _, _) =
    rw (init_resumes, a) (finish-app c phase (some e) r)
init_failed-app c phase l awaits_runtime r e (_, _, _, a, _, _, _) =
    rw (init_resumes, a) (finish-app c phase (some e) (runtime_done phase runtime_done_error r))
init_failed-app c phase l awaits_agents r e (_, _, a, _, _, _, _) =
    rw (init_resumes, a) (finish-app c phase (some e) (runtime_done phase runtime_done_error r))

inline-failed :
    (c : Settings) (id : String) (w : Rapid × Progress) (e : Error)
    → w.1 ≡ ended (some e)
    → ((inline c id w).1 ≡ invoke_ended (some e)) × ((inline c id w).0.app ≡ w.0.app)
inline-failed c id (r, ended (some x)) e h = (cc h, refl)
inline-failed c id (r, ended none) e h = absurd (cc)
inline-failed c id (r, waits pc) e h = absurd (cc)
inline-failed c id (r, panicked) e h = absurd (cc)

-- An invoke at a gate that answers with an error ends with that error, its inline init included.
pub invoke_resumes-failed :
    (c : Settings) (id : String) (l : Launch) (pc : InvokePc) (r : Rapid) (e : Error)
    → AllAnswer (passed (some e)) r.service
    → ((invoke_resumes c id l pc r).1 ≡ invoke_ended (some e))
      × ((invoke_resumes c id l pc r).0.app ≡ r.app)
unfolding invoke_resumes
invoke_resumes-failed c id l (inline_init pc) r e all =
    let w = init_resumes c lifecycle_phase_invoke l pc r in
    let (ends, app) =
      inline-failed c id w e (init_resumes-failed c lifecycle_phase_invoke l pc r e all) in
    (ends, app ∙ init_failed-app c lifecycle_phase_invoke l pc r e all)
invoke_resumes-failed c id l awaits_runtime_response r e (_, _, _, _, a, _, _) =
    rw (invoke_resumes, a) (refl, refl)
invoke_resumes-failed c id l awaits_runtime_ready r e (_, _, _, _, _, a, _) =
    rw (invoke_resumes, a) (refl, refl)
invoke_resumes-failed c id l awaits_agents_ready r e (_, _, _, _, _, _, a) =
    rw (invoke_resumes, a) (refl, refl)

invoke_error-type :
    (c : Settings) (utf8 : String → List ℕ) (e : Error) (r : Rapid)
    → (handle_invoke_error c utf8 e r).error_type ≡ fatal_or sandbox_failure r.app
unfolding handle_invoke_error
invoke_error-type c utf8 e r = ground arith

fatal-of :
    (default t : List ℕ) (r : Rapid)
    → load_first_fatal_error r.app ≡ found t
    → fatal_or default r.app ≡ t
unfolding fatal_or
fatal-of default t r h = rw (fatal_or, h) refl

-- A process exits while an invoke waits, whoever it is, where nobody shuts down, nothing was cancelled
-- and no fatal error was stored: the invoke ends with the error of that exit when it is woken, at
-- whatever gate it waits, those of its inline init included; and its failure has the type of a
-- runtime's exit, or of an extension's crash. The registration service may be asked anything before,
-- other than to be cleared.
pub crash-ends_invoke :
    (c : Settings) (formatted : String → String) (t : Termination) (now : ℕ) (r s woken : Rapid)
    (h : Memory) (calls : List Call) (id : String) (l : Launch) (pc : InvokePc)
    (utf8 : String → List ℕ)
    → r.shutdown.shutting_down ≡ false
    → r.service.cancelled ≡ false
    → load first_fatal_error_key r.app ≡ none
    → watch_event c formatted (process_terminated t) now r ≡ some s
    → NoClear calls
    → woken.service ≡ (run (h, s.service) calls).1
    → woken.app ≡ s.app
    → let err = exit_error formatted r.runtime_domain_generation t in
      ((invoke_resumes c id l pc woken).1 ≡ invoke_ended (some err))
      × ((handle_invoke_error c utf8 err (invoke_resumes c id l pc woken).0).error_type
          ≡ exit_type r.runtime_domain_generation t)
crash-ends_invoke c formatted t now r s woken h calls id l pc utf8 calm fresh clean w n later same =
    let err = exit_error formatted r.runtime_domain_generation t in
    let kind = exit_type r.runtime_domain_generation t in
    let (ends, app) =
      invoke_resumes-failed c id l pc woken err
        (rw later (exit-AllAnswer c formatted t now r s h calls calm fresh w n)) in
    let stored =
      loaded-of kind (store_first_fatal_error kind r.app) (store_first-stored kind r.app clean) in
    let final = (invoke_resumes c id l pc woken).0 in
    let loaded : load_first_fatal_error final.app ≡ found kind =
      ap load_first_fatal_error
        (app ∙ same ∙ (watch_event-unexpected c formatted t now r s calm fresh w).1)
      ∙ stored in
    (ends, invoke_error-type c utf8 err final ∙ fatal-of sandbox_failure kind final loaded)
