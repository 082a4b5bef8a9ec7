-- ===== src/Core/Runtime/Progress.antt =====
-- What the replies of a history say: refused requests, responses sent, waits that ended.
use lambda_runtime_init.Base.{
  ℕ, ◌+◌, ◌≤◌, ◌≡◌, refl, inl, inr, none, some, List, [], ◌∷◌, arith, Option-cases, get_elem?,
  if◌then◌else◌,
}
use lambda_runtime_init.Core.Error.{not_allowed}
use lambda_runtime_init.Core.Gate
use lambda_runtime_init.Core.Thread.{
  Object, Outcome, Resume, to_running, to_restoring, returned, suspended,
}
use lambda_runtime_init.Core.Runtime.{
  RuntimeState, started, invocation_response, invocation_error_response, Runtime,
}
use lambda_runtime_init.Core.Runtime.Methods
use lambda_runtime_init.Core.Runtime.System.{
  Call, Event, calls, wakes, releases, initializes_barriers, clears_init, clears_invoke,
  cancels_init, cancels_invoke, System, Reply, pending, replied, call, step, run, after_call,
  after_wake,
}
use lambda_runtime_init.Core.Runtime.System

call-not_allowed :
    (c : Call) (s : RuntimeState) (now later : ℕ) (o : Object Runtime)
    → o.self.current_state ≡ s
    → (call c now later o).1 ≡ returned (some not_allowed)
    → (call c now later o).0 ≡ o
unfolding call Gate.walk_through
call-not_allowed System.ready started now later o e h = ground arith
call-not_allowed System.ready _ now later o e h = ground arith
call-not_allowed c _ now later o e h = ground arith

wake-not_allowed :
    (r : Resume) (now : ℕ) (o : Object Runtime)
    → (Methods.wake r now o).1 ≡ returned (some not_allowed)
    → ⊥
unfolding Methods.wake
wake-not_allowed to_running now o h = ground arith
wake-not_allowed to_restoring now o h = ground arith

after_call-not_allowed :
    (s : System) (p : Object Runtime × Outcome)
    → ((p.1 ≡ returned (some not_allowed)) → p.0 ≡ s.object)
    → (after_call s.waiting p).1 ≡ replied (some not_allowed)
    → (after_call s.waiting p).0 ≡ s
after_call-not_allowed s (o, returned e) f h = ground (arith, f (ground arith))
after_call-not_allowed s (o, suspended r) f h = cc

after_wake-not_allowed :
    (s : System) (i : ℕ) (p : Object Runtime × Outcome)
    → (p.1 ≡ returned (some not_allowed) → ⊥)
    → (after_wake s i p).1 ≡ replied (some not_allowed)
    → ⊥
after_wake-not_allowed s i (o, returned e) f h = f (ground arith)
after_wake-not_allowed s i (o, suspended r) f h = cc

-- A request that is refused as not allowed changes nothing: neither the runtime nor a gate nor who
-- waits.
pub step-not_allowed :
    (s : System) (e : Event) → (step s e).1 ≡ replied (some not_allowed) → (step s e).0 ≡ s
unfolding step
step-not_allowed s (calls c now later) h =
    after_call-not_allowed s (call c now later s.object)
      (call-not_allowed c s.object.self.current_state now later s.object refl) h
step-not_allowed s (wakes i now) h = elim (Option-cases (get_elem? s.waiting i)) [
  | inl e ↦ rw (e, step)
  | inr (r, e) ↦ absurd (
      after_wake-not_allowed s i (Methods.wake r now s.object) (wake-not_allowed r now s.object)
        (rw (e, step) at h))
]
step-not_allowed s _ h = cc

-- Responses that a runtime has announced and not yet sent.
abbrev owed : RuntimeState → ℕ
owed invocation_response = 1
owed invocation_error_response = 1
owed _ = 0

abbrev pub owed_by : System → ℕ
owed_by s = owed s.object.self.current_state

-- Whether a step announced a response (the reply is nil), or sent one (it is not refused).
abbrev pub announced : Event → Reply → ℕ
announced (calls System.invocation_response _ _) (replied none) = 1
announced (calls System.invocation_error_response _ _) (replied none) = 1
announced _ _ = 0

abbrev is_accepted : Reply → ℕ
is_accepted (replied (some not_allowed)) = 0
is_accepted _ = 1

abbrev pub sent : Event → Reply → ℕ
sent (calls System.response_sent _ _) r = is_accepted r
sent _ _ = 0

-- Sums over a history.
abbrev pub total : (Event → Reply → ℕ) → System → List Event → ℕ
total w s [] = 0
total w s (e ∷ es) = w e (step s e).1 + total w (step s e).0 es

call-owed :
    (c : Call) (st : RuntimeState) (s : System) (now later : ℕ)
    → s.object.self.current_state ≡ st
    → let r = step s (calls c now later) in
      sent (calls c now later) r.1 + owed_by r.0 ≡ announced (calls c now later) r.1 + owed_by s
unfolding step Gate.walk_through
call-owed System.ready started s now later e = ground arith
call-owed System.ready _ s now later e = ground arith
call-owed c _ s now later e = ground arith

wake-owed :
    (r : Resume) (now i : ℕ) (s : System)
    → owed_by (after_wake s i (Methods.wake r now s.object)).0 ≡ owed_by s
unfolding Methods.wake
wake-owed to_running now i s = ground arith
wake-owed to_restoring now i s = ground arith

step-owed :
    (s : System) (e : Event)
    → sent e (step s e).1 + owed_by (step s e).0 ≡ announced e (step s e).1 + owed_by s
unfolding step
step-owed s (calls c now later) = call-owed c s.object.self.current_state s now later refl
step-owed s (wakes i now) = elim (Option-cases (get_elem? s.waiting i)) [
  | inl e ↦ rw (e, step) refl
  | inr (r, e) ↦ rw (e, step) (omega (arith, wake-owed r now i s))
]
step-owed s releases = refl
step-owed s initializes_barriers = refl
step-owed s clears_init = refl
step-owed s clears_invoke = refl
step-owed s (cancels_init _) = refl
step-owed s (cancels_invoke _) = refl

-- Over any history every response that is sent was announced first, and only once: the responses
-- sent and the one still owed at the end are those announced and the one owed at the start.
pub responses_balance :
    (s : System) (es : List Event)
    → total sent s es + owed_by (run s es).0 ≡ total announced s es + owed_by s
unfolding run
responses_balance s [] = refl
responses_balance s (e ∷ es) = omega (arith, step-owed s e, responses_balance (step s e).0 es)

-- The operator's permission to go on, which one waiting goroutine can take.
abbrev pub permits : System → ℕ
permits s = if s.object.self.managed_thread.operator_condition_value then 1 else 0

-- Whether a step is a release, and whether it ended the wait of a goroutine.
abbrev pub released : Event → Reply → ℕ
released releases _ = 1
released _ _ = 0

abbrev pub resumed : Event → Reply → ℕ
resumed (wakes _ _) (replied _) = 1
resumed _ _ = 0

wake-permits :
    (r : Resume) (now i : ℕ) (s : System)
    → let a = after_wake s i (Methods.wake r now s.object) in
      resumed (wakes i now) a.1 + permits a.0 ≡ permits s
unfolding Methods.wake
wake-permits to_running now i s = ground arith
wake-permits to_restoring now i s = ground arith

call-permits :
    (c : Call) (st : RuntimeState) (s : System) (now later : ℕ)
    → s.object.self.current_state ≡ st
    → permits (step s (calls c now later)).0 ≤ permits s
unfolding step Gate.walk_through
call-permits System.ready started s now later e = ground arith
call-permits System.ready _ s now later e = ground arith
call-permits c _ s now later e = ground arith

step-permits :
    (s : System) (e : Event)
    → resumed e (step s e).1 + permits (step s e).0 ≤ released e (step s e).1 + permits s
unfolding step
step-permits s (calls c now later) =
    omega (arith, call-permits c s.object.self.current_state s now later refl)
step-permits s (wakes i now) = elim (Option-cases (get_elem? s.waiting i)) [
  | inl e ↦ rw (e, step) (omega arith)
  | inr (r, e) ↦ rw (e, step) (omega (arith, wake-permits r now i s))
]
step-permits s releases = ground arith
step-permits s _ = ground arith

-- A release lets one waiting goroutine go on at most: over any history, the waits that end are no
-- more than the releases, and one more if a release was not yet taken at the start.
pub resumed-le-released :
    (s : System) (es : List Event) → total resumed s es ≤ total released s es + permits s
resumed-le-released s [] = omega arith
resumed-le-released s (e ∷ es) =
    omega (arith, step-permits s e, resumed-le-released (step s e).0 es)
