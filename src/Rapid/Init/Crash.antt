-- ===== src/Rapid/Init/Crash.antt =====
-- internal/lambda/rapid/handlers.go: an exit of a process that nobody asked for ends the init.
use lambda_runtime_init.Base.{ℕ, ◌≡◌, refl, sym, ap, ◌∙◌, false, some, List, String}
use lambda_runtime_init.Core.Error.{Error}
use lambda_runtime_init.Core.Gate.{passed}
use lambda_runtime_init.Core.Registrations.{Memory, RegistrationService, cancel_flows}
use lambda_runtime_init.Core.Registrations.Cancel.{AllAnswer, cancel_flows-first}
use lambda_runtime_init.Core.Registrations.Agents.{Call, run}
use lambda_runtime_init.Core.Registrations.Limits.{NoClear}
use lambda_runtime_init.Rapid.{Phase, Settings, Rapid}
use lambda_runtime_init.Rapid.Exits.{
  Termination, process_terminated, exit_error, note_exit, watch_event, exit_type,
  handle_process_exit,
}
use lambda_runtime_init.Rapid.Shutdown.Watch.{exit-Kept, watched-cancelled, stored}
use lambda_runtime_init.Base.{if-false}
use lambda_runtime_init.Rapid.Launch.{Launch}
use lambda_runtime_init.Rapid.Init.{InitPc, awaits_extensions, awaits_runtime, awaits_agents, ended}
use lambda_runtime_init.Rapid.Init.{init_resumes, finish_done, finish}

-- An init at a gate that answers with an error ends with that error.
pub init_resumes-failed :
    (c : Settings) (phase : Phase) (l : Launch) (pc : InitPc) (r : Rapid) (e : Error)
    → AllAnswer (passed (some e)) r.service
    → (init_resumes c phase l pc r).1 ≡ ended (some e)
unfolding init_resumes finish_done finish
init_resumes-failed c phase l awaits_extensions r e (a, _, _, _, _, _, _) =
    rw (init_resumes, a) refl
init_resumes-failed c phase l awaits_runtime r e (_, _, _, a, _, _, _) = rw (init_resumes, a) refl
init_resumes-failed c phase l awaits_agents r e (_, _, a, _, _, _, _) = rw (init_resumes, a) refl

-- The watcher cancels the flows.
pub watch_event-cancels :
    (c : Settings) (formatted : String → String) (t : Termination) (now : ℕ) (r s : Rapid)
    → r.shutdown.shutting_down ≡ false
    → r.service.cancelled ≡ false
    → watch_event c formatted (process_terminated t) now r ≡ some s
    → (u : RegistrationService) × (u.cancelled ≡ false)
      × (s.service ≡ cancel_flows (some (exit_error formatted r.runtime_domain_generation t)) u)
unfolding watch_event note_exit
watch_event-cancels c formatted t now r s calm fresh h =
    let g = r.runtime_domain_generation in
    let begun = stored (exit_type g t) r in
    let err = some (exit_error formatted g t) in
    let (u, exited, same) =
      watched-cancelled err (handle_process_exit c t now begun) s (sym (if-false _ _ calm) ∙ h) in
    let (_, cancelled, _, _, _, _) = exit-Kept c t now begun u exited in
    (u.service, cancelled ∙ fresh, ap (λ x. x.service) same)

-- The gates still answer with the error of the exit, whatever the service is asked afterwards.
pub exit-AllAnswer :
    (c : Settings) (formatted : String → String) (t : Termination) (now : ℕ) (r s : Rapid)
    (h : Memory) (calls : List Call)
    → r.shutdown.shutting_down ≡ false
    → r.service.cancelled ≡ false
    → watch_event c formatted (process_terminated t) now r ≡ some s
    → NoClear calls
    → AllAnswer
        (passed (some (exit_error formatted r.runtime_domain_generation t)))
        (run (h, s.service) calls).1
exit-AllAnswer c formatted t now r s h calls calm fresh w n =
    let err = some (exit_error formatted r.runtime_domain_generation t) in
    let (u, unused, same) = watch_event-cancels c formatted t now r s calm fresh w in
    rw same (cancel_flows-first err h u calls unused n)

-- A process exits while an init waits, whoever it is, where nobody shuts down and nothing was
-- cancelled: the init ends with the error of that exit when it is woken, at whatever gate it waits,
-- and whatever the registration service is asked before, other than to be cleared.
pub crash-ends_init :
    (c : Settings) (formatted : String → String) (t : Termination) (now : ℕ) (r s woken : Rapid)
    (h : Memory) (calls : List Call) (phase : Phase) (l : Launch) (pc : InitPc)
    → r.shutdown.shutting_down ≡ false
    → r.service.cancelled ≡ false
    → watch_event c formatted (process_terminated t) now r ≡ some s
    → NoClear calls
    → woken.service ≡ (run (h, s.service) calls).1
    → (init_resumes c phase l pc woken).1
      ≡ ended (some (exit_error formatted r.runtime_domain_generation t))
crash-ends_init c formatted t now r s woken h calls phase l pc calm fresh w n later =
    init_resumes-failed c phase l pc woken (exit_error formatted r.runtime_domain_generation t)
      (rw later (exit-AllAnswer c formatted t now r s h calls calm fresh w n))
