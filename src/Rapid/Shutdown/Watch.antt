-- ===== src/Rapid/Shutdown/Watch.antt =====
-- internal/lambda/rapid/handlers.go, `watchEvents`: exits of processes, with and without a shutdown.
use lambda_runtime_init.Base.{
  ℕ, ◌≡◌, refl, sym, ◌∙◌, Bool, false, Option, none, some, List, String, arith, if◌then◌else◌,
  if-false, Option-cases, inl, inr, get_elem?,
}
use lambda_runtime_init.Core.Error.{Error}
use lambda_runtime_init.Core.Gate.{passed}
use lambda_runtime_init.Core.ExternalAgent.Methods as External
use lambda_runtime_init.Core.AgentsMap.{AgentRef}
use lambda_runtime_init.Core.Registrations.{cancel_flows}
use lambda_runtime_init.Core.Registrations.Cancel.{AllAnswer, cancel_flows-AllAnswer}
use lambda_runtime_init.Appctx.{store_first_fatal_error}
use lambda_runtime_init.Rapid.{ProcessName, Settings, Rapid, call_agent}
use lambda_runtime_init.Rapid.Exits.{
  find_process, close_channel, Termination, success, handle_process_exit, process_terminated,
  exit_error, exit_type, note_exit, watch_event, cancelled_with,
}

-- What an exit leaves alone.
abbrev pub Kept : Rapid → Rapid → Type 0
Kept r s =
    (s.app ≡ r.app)
    × (s.service.cancelled ≡ r.service.cancelled)
    × (s.outputs ≡ r.outputs)
    × (s.runtime_domain_generation ≡ r.runtime_domain_generation)
    × (s.shutdown.shutting_down ≡ r.shutdown.shutting_down)
    × (s.shutdown.agents_awaiting_exit ≡ r.shutdown.agents_awaiting_exit)

pub call_agent-Kept :
    (p : Error → Bool) (c : External.Call) (now : ℕ) (a : AgentRef) (r : Rapid)
    → Kept r (call_agent p c now a r) × ((call_agent p c now a r).shutdown ≡ r.shutdown)
unfolding call_agent
call_agent-Kept p c now a r = elim (Option-cases (get_elem? r.memory.externals a.address)) [
  | inl n ↦ rw (call_agent, n) ((refl, refl, refl, refl, refl, refl), refl)
  | inr (agent, e) ↦ rw (call_agent, e) ((refl, refl, refl, refl, refl, refl), refl)
]

close-Kept : (name : ProcessName) (r s : Rapid) → close_channel name r ≡ some s → Kept r s
unfolding close_channel
close-Kept name r s h = ground arith

pub exit-Kept :
    (c : Settings) (t : Termination) (now : ℕ) (r s : Rapid)
    → handle_process_exit c t now r ≡ some s
    → Kept r s
unfolding handle_process_exit
exit-Kept c t now r s h =
    elim (Option-cases (find_process t.name r.shutdown.agents_awaiting_exit)) [
      | inl n ↦ close-Kept t.name r s (rw (handle_process_exit, n) at h)
      | inr (a, e) ↦
          let method = if success t then External.exits else External.shutdowns_failed in
          let called = call_agent c.is_permission method now a r in
          let (a1, b1, c1, d1, e1, f1) = (call_agent-Kept c.is_permission method now a r).0 in
          let (a2, b2, c2, d2, e2, f2) =
            close-Kept t.name called s (rw (handle_process_exit, e) at h) in
          (a2 ∙ a1, b2 ∙ b1, c2 ∙ c1, d2 ∙ d1, e2 ∙ e1, f2 ∙ f1)
    ]

-- A round of the watcher that does not panic.
pub watched-cancelled :
    (err : Option Error) (m : Option Rapid) (s : Rapid)
    → cancelled_with err m ≡ some s
    → (r : Rapid) × (m ≡ some r) × (s ≡ record r { service = cancel_flows err r.service })
watched-cancelled err none s h = absurd (cc)
watched-cancelled err (some r) s h = (r, refl, cc)

abbrev pub stored : List ℕ → Rapid → Rapid
stored t r = record r { app = store_first_fatal_error t r.app }

-- A process that exits while nobody shuts the sandbox down, where nothing was cancelled before:
-- whoever waits at a gate of the init phase or of an invoke gets the error of that exit; and the
-- first fatal error is the one there was, or else that of a runtime's exit or of an extension's.
pub watch_event-unexpected :
    (c : Settings) (formatted : String → String) (t : Termination) (now : ℕ) (r s : Rapid)
    → r.shutdown.shutting_down ≡ false
    → r.service.cancelled ≡ false
    → watch_event c formatted (process_terminated t) now r ≡ some s
    → AllAnswer (passed (some (exit_error formatted r.runtime_domain_generation t))) s.service
      × (s.app ≡ store_first_fatal_error (exit_type r.runtime_domain_generation t) r.app)
unfolding watch_event note_exit
watch_event-unexpected c formatted t now r s calm fresh h =
    let g = r.runtime_domain_generation in
    let begun = stored (exit_type g t) r in
    let err = some (exit_error formatted g t) in
    let (u, exited, same) =
      watched-cancelled err (handle_process_exit c t now begun) s (sym (if-false _ _ calm) ∙ h) in
    let (app, cancelled, _, _, _, _) = exit-Kept c t now begun u exited in
    rw same ((cancel_flows-AllAnswer err u.service (cancelled ∙ fresh)).0, app)
