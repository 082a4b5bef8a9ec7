-- ===== src/Core/ExternalAgent/Final.antt =====
-- An external extension that has ended: what no history changes any more.
use lambda_runtime_init.Base.{
  ℕ, zero, suc, ◌≡◌, refl, sym, ◌∙◌, subst, ◌⊎◌, Bool, List, [], ◌∷◌, arith,
}
use lambda_runtime_init.Core.Error.{Error}
use lambda_runtime_init.Core.Thread.{Object}
use lambda_runtime_init.Core.ExternalAgent.{
  ExternalAgentState, init_error, exit_error, shutdown_failed, exited, launch_error, ExternalAgent,
}
use lambda_runtime_init.Core.ExternalAgent.Methods.{
  Call, registers, Step, calls, wakes, System, call, wake, step, run, after_call, after_wake,
}

-- The states in which an extension has ended.
abbrev pub IsFinal : ExternalAgentState → Type 0
IsFinal s =
    (s ≡ init_error) ⊎ (s ≡ exit_error) ⊎ (s ≡ shutdown_failed) ⊎ (s ≡ exited) ⊎ (s ≡ launch_error)

abbrev pub state : System → ExternalAgentState
state s = s.object.self.current_state

-- What an extension shows of itself.
abbrev pub Same : ExternalAgent → ExternalAgent → Type 0
Same a b =
    (a.current_state ≡ b.current_state)
    × (a.error_type ≡ b.error_type)
    × (a.events ≡ b.events)
    × (a.state_last_modified ≡ b.state_last_modified)

Same-trans : (a b c : ExternalAgent) → Same b c → Same a b → Same a c
Same-trans a b c (p, q, r, t) (p', q', r', t') = (p' ∙ p, q' ∙ q, r' ∙ r, t' ∙ t)

call-final :
    (p : Error → Bool) (c : Call) (n now later : ℕ) (o : Object ExternalAgent)
    → IsFinal o.self.current_state
    → Same (after_call n (call p c now later o)).0.object.self o.self
unfolding call
call-final p (registers es) n now later o f = ground arith
call-final p c n now later o f = ground arith

wake-final :
    (n now : ℕ) (o : Object ExternalAgent)
    → IsFinal o.self.current_state
    → Same (after_wake n (wake now o)).0.object.self o.self
unfolding wake
wake-final n now o f = ground arith

step-final :
    (p : Error → Bool) (s : System) (n : ℕ) (e : Step)
    → s.waiting ≡ n
    → IsFinal (state s)
    → Same (step p s e).0.object.self s.object.self
unfolding step
step-final p s n (calls c now later) w f = call-final p c s.waiting now later s.object f
step-final p s zero (wakes now) w f = rw (w, step) (refl, refl, refl, refl)
step-final p s (suc n) (wakes now) w f = rw (w, step) (wake-final n now s.object f)
step-final p s n _ w f = (refl, refl, refl, refl)

-- An external extension that has ended keeps its state, the error that it reported first, and its
-- subscriptions, whatever is requested, released or woken afterwards.
pub run_external-final :
    (p : Error → Bool) (s : System) (es : List Step)
    → IsFinal (state s)
    → Same (run p s es).object.self s.object.self
unfolding run
run_external-final p s [] f = (refl, refl, refl, refl)
run_external-final p s (e ∷ es) f =
    let same = step-final p s s.waiting e refl f in
    Same-trans (run p (step p s e).0 es).object.self (step p s e).0.object.self s.object.self same
      (run_external-final p (step p s e).0 es (subst IsFinal (sym same.0) f))
