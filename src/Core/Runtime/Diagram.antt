-- ===== src/Core/Runtime/Diagram.antt =====
-- internal/lambda/core/states.go: where each method takes the runtime, from each state.
use lambda_runtime_init.Base.{
  ℕ, ◌≡◌, refl, sym, ◌⊎◌, inl, inr, Bool, true, List, [], ◌∷◌, Option, none, some, arith,
  Option-cases, get_elem?, subst, if◌then◌else◌,
}
use lambda_runtime_init.Core.Thread.{
  Object, Outcome, Resume, to_running, to_restoring, returned, suspended,
}
use lambda_runtime_init.Core.Runtime.{
  RuntimeState, started, init_error, ready, running, restore_ready, restoring, invocation_response,
  invocation_error_response, response_sent, restore_error, Runtime,
}
use lambda_runtime_init.Core.Runtime.Methods
use lambda_runtime_init.Core.Runtime.System.{
  Call, Event, calls, wakes, releases, initializes_barriers, clears_init, clears_invoke,
  cancels_init, cancels_invoke, System, call, step, run,
}
use lambda_runtime_init.Core.Runtime.System

-- A method that enters a state and waits there leaves it only if it was released.
abbrev pub Parks : Bool → RuntimeState → RuntimeState → RuntimeState → Type 0
Parks released at onward t = (t ≡ at) ⊎ ((t ≡ onward) × (released ≡ true))

-- The state that a call leaves behind, by the state that it finds. A call that the state does not
-- allow changes nothing.
abbrev pub Moves : Call → Bool → RuntimeState → RuntimeState → Type 0
Moves System.ready released started t = Parks released ready running t
Moves System.ready released restoring t = Parks released ready running t
Moves System.ready released response_sent t = Parks released ready running t
Moves System.ready released ready t = t ≡ (if released then running else ready)
Moves System.restore_ready released started t = Parks released restore_ready restoring t
Moves System.init_error released started t = t ≡ init_error
Moves System.invocation_response released running t = t ≡ invocation_response
Moves System.invocation_error_response released running t = t ≡ invocation_error_response
Moves System.response_sent released invocation_response t = t ≡ response_sent
Moves System.response_sent released invocation_error_response t = t ≡ response_sent
Moves (System.restore_error e) released restoring t = t ≡ restore_error
Moves _ released s t = t ≡ s

-- The same for a goroutine that waits and is woken.
abbrev pub Wakes : Resume → Bool → RuntimeState → RuntimeState → Type 0
Wakes to_running released ready t = t ≡ (if released then running else ready)
Wakes to_restoring released restore_ready t = t ≡ (if released then restoring else restore_ready)
Wakes _ released s t = t ≡ s

abbrev WakesIn : Option Resume → Bool → RuntimeState → RuntimeState → Type 0
WakesIn none released s t = t ≡ s
WakesIn (some r) released s t = Wakes r released s t

abbrev pub state : System → RuntimeState
state s = s.object.self.current_state

abbrev released : System → Bool
released s = s.object.self.managed_thread.operator_condition_value

-- The state after a step of the history.
abbrev pub Goes : System → Event → RuntimeState → Type 0
Goes s (calls c now later) t = Moves c (released s) (state s) t
Goes s (wakes i now) t = WakesIn (get_elem? s.waiting i) (released s) (state s) t
Goes s _ t = t ≡ state s

-- A history that moves as the steps say, from each state to the next.
abbrev pub Follows : System → List Event → Type 0
Follows s [] = Unit {0}
Follows s (e ∷ es) = Goes s e (state (step s e).0) × Follows (step s e).0 es

call-Moves :
    (c : Call) (s : RuntimeState) (now later : ℕ) (o : Object Runtime)
    → o.self.current_state ≡ s
    → Moves c o.self.managed_thread.operator_condition_value s
        (call c now later o).0.self.current_state
unfolding call
call-Moves System.ready started now later o e = ground arith
call-Moves System.ready restoring now later o e = ground arith
call-Moves System.ready _ now later o e = ground arith
call-Moves System.restore_ready started now later o e = ground arith
call-Moves c _ now later o e = ground arith

wake-Wakes :
    (r : Resume) (s : RuntimeState) (now : ℕ) (o : Object Runtime)
    → o.self.current_state ≡ s
    → Wakes r o.self.managed_thread.operator_condition_value s
        (Methods.wake r now o).0.self.current_state
unfolding Methods.wake
wake-Wakes to_running ready now o e = ground arith
wake-Wakes to_restoring restore_ready now o e = ground arith
wake-Wakes r _ now o e = ground arith

after_call-state :
    (ws : List Resume) (p : Object Runtime × Outcome)
    → state (System.after_call ws p).0 ≡ p.0.self.current_state
after_call-state ws (o, returned e) = refl
after_call-state ws (o, suspended r) = refl

after_wake-state :
    (s : System) (i : ℕ) (p : Object Runtime × Outcome)
    → state (System.after_wake s i p).0 ≡ p.0.self.current_state
after_wake-state s i (o, returned e) = refl
after_wake-state s i (o, suspended r) = refl

step-Goes : (s : System) (e : Event) → Goes s e (state (step s e).0)
unfolding step
step-Goes s (calls c now later) =
    subst (Moves c (released s) (state s))
      (sym (after_call-state s.waiting (call c now later s.object)))
      (call-Moves c (state s) now later s.object refl)
step-Goes s (wakes i now) = elim (Option-cases (get_elem? s.waiting i)) [
  | inl e ↦ rw (e, step) refl
  | inr (r, e) ↦
      rw (e, step)
        (subst (Wakes r (released s) (state s))
          (sym (after_wake-state s i (Methods.wake r now s.object)))
          (wake-Wakes r (state s) now s.object refl))
]
step-Goes s _ = refl

-- Whatever requests, wake-ups, releases, cancellations and resets happen, in any order: at each step
-- of the history the state is the one that the call leads to from the state before. A call that the
-- state does not allow, and any other step, leaves it; and a runtime that waits in `Ready` or
-- `RestoreReady` goes on from there only if it was released.
pub run-Follows : (s : System) (es : List Event) → Follows s es
run-Follows s [] = tt
run-Follows s (e ∷ es) = (step-Goes s e, run-Follows (step s e).0 es)
