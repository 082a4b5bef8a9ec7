-- ===== src/Core/InternalAgent/Diagram.antt =====
-- internal/lambda/core/internalagent_states.go: where each method takes an internal extension, from
-- each state.
use lambda_runtime_init.Base.{
  ℕ, zero, suc, none, ◌≡◌, ◌≢◌, refl, Bool, true, false, List, [], ◌∷◌, arith, if◌then◌else◌,
}
use lambda_runtime_init.Core.Thread.{Object}
use lambda_runtime_init.Core.Agent.{Event, invoke_event}
use lambda_runtime_init.Core.InternalAgent.{
  InternalAgentState, started, registered, ready, running, init_error, exit_error, InternalAgent,
  subscribe_all, subscribe_unsafe,
}
use lambda_runtime_init.Core.InternalAgent.Methods.{
  Call, registers, readies, init_errors, exit_errors, Step, calls, wakes, releases, others, System,
  call, wake, step, after_call, after_wake,
}

abbrev pub state : System → InternalAgentState
state s = s.object.self.current_state

abbrev released : System → Bool
released s = s.object.self.managed_thread.operator_condition_value

-- The events that an internal extension may register for.
abbrev pub all_known : List Event → Bool
all_known [] = true
all_known (invoke_event ∷ es) = all_known es
all_known (_ ∷ es) = false

-- The state that a call leaves behind, by the state that it finds. A call that the state does not
-- allow changes nothing.
abbrev pub Moves : Call → Bool → InternalAgentState → InternalAgentState → Type 0
Moves (registers es) released started t = t ≡ (if all_known es then registered else started)
Moves readies released registered t = t ≡ (if released then running else ready)
Moves (init_errors e) released registered t = t ≡ init_error
Moves (exit_errors e) released registered t = t ≡ exit_error
Moves (exit_errors e) released ready t = t ≡ exit_error
Moves readies released running t = t ≡ (if released then running else ready)
Moves (exit_errors e) released running t = t ≡ exit_error
Moves _ released s t = t ≡ s

-- The same for a goroutine that waits and is woken.
abbrev Wakes : Bool → InternalAgentState → InternalAgentState → Type 0
Wakes released ready t = t ≡ (if released then running else ready)
Wakes released s t = t ≡ s

abbrev WakesIn : ℕ → Bool → InternalAgentState → InternalAgentState → Type 0
WakesIn zero released s t = t ≡ s
WakesIn (suc n) released s t = Wakes released s t

-- The state after a step of the history.
abbrev pub Goes : System → Step → InternalAgentState → Type 0
Goes s (calls c now later) t = Moves c (released s) (state s) t
Goes s (wakes now) t = WakesIn s.waiting (released s) (state s) t
Goes s releases t = t ≡ state s
Goes s (others f g) t = t ≡ state s

-- A history that moves as the steps say, from each state to the next.
abbrev pub Follows : System → List Step → Type 0
Follows s [] = Unit {0}
Follows s (e ∷ es) = Goes s e (state (step s e).0) × Follows (step s e).0 es

subscribe_all-stops :
    (es : List Event) (a : InternalAgent)
    → ((subscribe_all es a).0.current_state ≡ a.current_state)
      × ((subscribe_all es a).0.managed_thread ≡ a.managed_thread)
      × ((all_known es ≡ true) → (subscribe_all es a).1 ≡ none)
      × ((all_known es ≡ false) → (subscribe_all es a).1 ≢ none)
unfolding subscribe_all subscribe_unsafe
subscribe_all-stops [] a = (refl, refl, (λ h. refl), (λ h. absurd (cc)))
subscribe_all-stops (invoke_event ∷ es) a =
    ground (arith, subscribe_all-stops es (subscribe_unsafe invoke_event a).0)
subscribe_all-stops (e ∷ es) a = ground arith

call-Moves :
    (c : Call) (t : InternalAgentState) (n now later : ℕ) (o : Object InternalAgent)
    → o.self.current_state ≡ t
    → Moves c o.self.managed_thread.operator_condition_value t
        (after_call n (call c now later o)).0.object.self.current_state
unfolding call
call-Moves (registers es) started n now later o e = ground (arith, subscribe_all-stops es o.self)
call-Moves (registers es) _ n now later o e = ground arith
call-Moves c _ n now later o e = ground arith

wake-Wakes :
    (t : InternalAgentState) (n now : ℕ) (o : Object InternalAgent)
    → o.self.current_state ≡ t
    → Wakes o.self.managed_thread.operator_condition_value t
        (after_wake n (wake now o)).0.object.self.current_state
unfolding wake
wake-Wakes ready n now o e = ground arith
wake-Wakes _ n now o e = ground arith

waken-Goes :
    (s : System) (n now : ℕ)
    → s.waiting ≡ n
    → WakesIn n (released s) (state s) (state (step s (wakes now)).0)
unfolding step
waken-Goes s zero now w = rw (w, step) refl
waken-Goes s (suc n) now w = rw (w, step) (wake-Wakes (state s) n now s.object refl)

step-Goes : (s : System) (e : Step) → Goes s e (state (step s e).0)
unfolding step
step-Goes s (calls c now later) = call-Moves c (state s) s.waiting now later s.object refl
step-Goes s (wakes now) = waken-Goes s s.waiting now refl
step-Goes s releases = refl
step-Goes s (others f g) = refl

-- Whatever is called, woken or released, in any order: at each step of the history the state of an
-- internal extension is the one that the call leads to from the state before. A call that the state
-- does not allow, and any other step, leaves it; a registration with an event that is not known does
-- too; and an extension that waits in `Ready` goes on from there only if it was released.
pub run_internal-Follows : (s : System) (es : List Step) → Follows s es
run_internal-Follows s [] = tt
run_internal-Follows s (e ∷ es) = (step-Goes s e, run_internal-Follows (step s e).0 es)
