-- ===== src/Core/Registrations/Cancel.antt =====
-- Cancelling the flows of the init phase and of an invoke: the first error is the one that counts.
use lambda_runtime_init.Base.{
  ◌≡◌, refl, ◌∙◌, true, false, Option, some, List, [], ◌∷◌, arith, or_else,
}
use lambda_runtime_init.Core.Error.{Error, gate_canceled}
use lambda_runtime_init.Core.Gate.{Await, passed, await_gate_condition}
use lambda_runtime_init.Core.InitFlow.{InitFlow}
use lambda_runtime_init.Core.InitFlow
use lambda_runtime_init.Core.InvokeFlow.{InvokeFlow}
use lambda_runtime_init.Core.InvokeFlow
use lambda_runtime_init.Core.Registrations.{
  Memory, RegistrationService, cancel_flows, add_external, add_internal,
}
use lambda_runtime_init.Core.Registrations.Agents.{
  Call, creates_external, creates_internal, preregisters, turns_off, clears, cancels, step, run,
}
use lambda_runtime_init.Core.Registrations.Limits.{NoClear}

-- Whoever waits at a gate of either flow gets the answer `r`.
abbrev pub AllAnswer : Await → RegistrationService → Type 0
AllAnswer r s =
    (InitFlow.await_external_agents_registered s.init_flow ≡ r)
    × (InitFlow.await_runtime_ready s.init_flow ≡ r)
    × (InitFlow.await_agents_ready s.init_flow ≡ r)
    × (InitFlow.await_runtime_restore_ready s.init_flow ≡ r)
    × (InvokeFlow.await_runtime_response s.invoke_flow ≡ r)
    × (InvokeFlow.await_runtime_ready s.invoke_flow ≡ r)
    × (InvokeFlow.await_agents_ready s.invoke_flow ≡ r)

abbrev KeepsFlows : RegistrationService → RegistrationService → Type 0
KeepsFlows s t =
    (s.init_flow ≡ t.init_flow) × (s.invoke_flow ≡ t.invoke_flow) × (s.cancelled ≡ t.cancelled)

step-cancelled :
    (w : Memory × RegistrationService) (c : Call) (cs : List Call)
    → NoClear (c ∷ cs)
    → w.1.cancelled ≡ true
    → KeepsFlows (step w c).1 w.1 × NoClear cs
unfolding step add_external add_internal
step-cancelled (h, s) (creates_external name id now) cs n o = ground arith
step-cancelled (h, s) (creates_internal name id now) cs n o = ground arith
step-cancelled (h, s) (preregisters r) cs n o = ground arith
step-cancelled (h, s) turns_off cs n o = ground arith
step-cancelled (h, s) clears cs n o = elim n [ ]
step-cancelled (h, s) (cancels e) cs n o = ground arith

run-cancelled :
    (w : Memory × RegistrationService) (cs : List Call)
    → NoClear cs
    → w.1.cancelled ≡ true
    → KeepsFlows (run w cs).1 w.1
unfolding run
run-cancelled w [] n o = (refl, refl, refl)
run-cancelled w (c ∷ cs) n o =
    let ((p, q, r), rest) = step-cancelled w c cs n o in
    let (p', q', r') = run-cancelled (step w c) cs rest (r ∙ o) in (p' ∙ p, q' ∙ q, r' ∙ r)

pub cancel_flows-AllAnswer :
    (e : Option Error) (s : RegistrationService)
    → s.cancelled ≡ false
    → AllAnswer (passed (some (or_else e gate_canceled))) (cancel_flows e s)
      × ((cancel_flows e s).cancelled ≡ true)
unfolding cancel_flows await_gate_condition InitFlow.await_external_agents_registered
    InitFlow.await_runtime_ready InitFlow.await_agents_ready InitFlow.await_runtime_restore_ready
    InvokeFlow.await_runtime_response InvokeFlow.await_runtime_ready InvokeFlow.await_agents_ready
cancel_flows-AllAnswer e s h = ground arith

-- The error that first cancels the flows reaches whoever waits at any of their gates, whatever the
-- service is asked afterwards, other cancellations included, until it is cleared.
pub cancel_flows-first :
    (e : Option Error) (h : Memory) (s : RegistrationService) (cs : List Call)
    → s.cancelled ≡ false
    → NoClear cs
    → AllAnswer (passed (some (or_else e gate_canceled))) (run (h, cancel_flows e s) cs).1
cancel_flows-first e h s cs fresh n =
    let (all, used) = cancel_flows-AllAnswer e s fresh in
    let (p, q, _) = run-cancelled (h, cancel_flows e s) cs n used in rw (p, q) all
