-- ===== src/Rapid/Restore/Laws.antt =====
-- internal/lambda/rapid/handlers.go, `handleRestore`: when a restore succeeds.
use lambda_runtime_init.Base.{ℕ, ◌≡◌, ◌≢◌, refl, ap, ◌↔◌, Option, none, some, List}
use lambda_runtime_init.Core.Error.{Error, restore_hook_timeout}
use lambda_runtime_init.Core.Gate.{Await, blocked, passed}
use lambda_runtime_init.Core.InitFlow.{
  InitFlow, Select, gate_answered, deadline_passed, await_runtime_ready,
  await_runtime_ready_with_deadline,
}
use lambda_runtime_init.Core.InitFlow
use lambda_runtime_init.Appctx.{Loaded, found, absent, mistyped, load_first_fatal_error}
use lambda_runtime_init.Rapid.{Rapid}
use lambda_runtime_init.Rapid.Restore.{
  restored, finish_restore, restore_error, at_restore_gate, restore_resumes,
}

error-none :
    (loaded : Loaded (List ℕ)) (err : Option Error)
    → (restore_error loaded err ≡ none) ↔ ((err ≡ none) × ((t : List ℕ) → loaded ≢ found t))
error-none (found t) err = (λ h. absurd (cc), λ h. absurd (h.1 t refl))
error-none absent none = (λ h. (refl, λ t k. cc), λ h. refl)
error-none absent (some e) = (λ h. absurd (cc), λ h. absurd (cc h.0))
error-none mistyped none = (λ h. (refl, λ t k. cc), λ h. refl)
error-none mistyped (some e) = (λ h. absurd (cc), λ h. absurd (cc h.0))

gate-nil :
    (a : Await) (r : Rapid)
    → ((at_restore_gate a r).1 ≡ restored none)
      ↔ ((a ≡ passed none) × ((t : List ℕ) → load_first_fatal_error r.app ≢ found t))
unfolding finish_restore
gate-nil blocked r = (λ h. absurd (cc), λ h. absurd (cc h.0))
gate-nil (passed err) r =
    let (to, from) = error-none (load_first_fatal_error r.app) err in
    (λ h. let (e, n) = to (cc h) in (ap passed e, n), λ h. ap restored (from (cc h.0, h.1)))

-- A restore that waits ends well exactly when the runtime has become ready in time and nobody has
-- reported a fatal error.
pub restore_resumes-succeeds :
    (select : Select) (r : Rapid)
    → ((restore_resumes select r).1 ≡ restored none) ↔ (
        (select ≡ gate_answered)
        × (await_runtime_ready r.service.init_flow ≡ passed none)
        × ((t : List ℕ) → load_first_fatal_error r.app ≢ found t))
unfolding restore_resumes
restore_resumes-succeeds gate_answered r =
    let (to, from) = gate-nil (await_runtime_ready r.service.init_flow) r in
    (λ h. let (ready, clean) = to h in (refl, ready, clean), λ h. from (h.1, h.2))
restore_resumes-succeeds deadline_passed r =
    let late = InitFlow.cancel_with_error r.service.init_flow (some restore_hook_timeout) in
    let (to, from) =
      gate-nil (passed (some restore_hook_timeout))
        (record r { service = record r.service { init_flow = late } }) in
    (λ h. absurd (cc (to h).0), λ h. absurd (cc h.0))
