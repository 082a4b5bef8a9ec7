-- ===== src/Core/Runtime/Cycle.antt =====
-- Whole invokes: the steps of the main thread and of the runtime in their usual order.
use lambda_runtime_init.Base.{
  ℕ, ◌≡◌, refl, sym, subst, ◌∙◌, ap, ap₂, ◌==◌, if◌then◌else◌, false, none, List, [], ◌∷◌, ◌++◌,
  arith,
}
use lambda_runtime_init.Core.Gate.{Gate, Await, blocked, passed}
use lambda_runtime_init.Core.Gate
use lambda_runtime_init.Core.InvokeFlow
use lambda_runtime_init.Core.Thread.{Resume, to_running}
use lambda_runtime_init.Core.Runtime.{RuntimeState}
use lambda_runtime_init.Core.Runtime.System.{
  Call, Event, calls, wakes, releases, initializes_barriers, System, Reply, pending, replied, step,
  run,
}
use lambda_runtime_init.Core.Runtime.System

-- A gate that expects one arrival, is not canceled, and has seen `n` of them.
pub record IsSingle (g : Gate) (n : ℕ) : Type 0 where
  pub one : g.count ≡ 1
  pub live : g.canceled ≡ false
  pub seen : g.arrived ≡ n

-- The runtime's state, who waits, and how often the response and the ready gate were passed.
pub record IsAt (st : RuntimeState) (ws : List Resume) (responses readies : ℕ) (s : System)
    : Type 0 where
  pub at : s.object.self.current_state ≡ st
  pub not_released : s.object.self.managed_thread.operator_condition_value ≡ false
  pub waits : s.waiting ≡ ws
  pub response_gate : IsSingle s.object.invoke_flow.runtime_response_gate responses
  pub ready_gate : IsSingle s.object.invoke_flow.runtime_ready_gate readies

-- The runtime asked for its next invoke, and waits; the last invoke went through both gates, or
-- none of them.
abbrev pub IsIdle : ℕ → System → Type 0
IsIdle n = IsAt RuntimeState.ready (to_running ∷ []) n n

-- The main thread dispatches an invoke, and the goroutine that waits takes it.
abbrev pub dispatch : ℕ → List Event
dispatch t = initializes_barriers ∷ releases ∷ wakes 0 t ∷ []

-- The runtime answers, by a response or an error response, and asks for the next invoke.
abbrev pub answer : Call → ℕ → List Event
answer c t = calls c t t ∷ calls System.response_sent t t ∷ calls System.ready t t ∷ []

pub data IsAnswer : Call → Type 0 where
  response : IsAnswer System.invocation_response
  error_response : IsAnswer System.invocation_error_response

abbrev flow : System → InvokeFlow.InvokeFlow
flow s = s.object.invoke_flow

abbrev announced_state : Call → RuntimeState
announced_state System.invocation_error_response = RuntimeState.invocation_error_response
announced_state _ = RuntimeState.invocation_response

dispatch-IsAt :
    (s : System) (n t : ℕ)
    → IsIdle n s
    → ((run s (dispatch t)).1 ≡ pending ∷ pending ∷ replied none ∷ [])
      × IsAt RuntimeState.running [] 0 0 (run s (dispatch t)).0
unfolding run step
dispatch-IsAt s n t v = ground arith

announce-IsAt :
    (s : System) (c : Call) (t : ℕ)
    → IsAnswer c
    → IsAt RuntimeState.running [] 0 0 s
    → ((step s (calls c t t)).1 ≡ replied none)
      × IsAt (announced_state c) [] 0 0 (step s (calls c t t)).0
unfolding step
announce-IsAt s c t response v = ground arith
announce-IsAt s c t error_response v = ground arith

sent-IsAt :
    (s : System) (c : Call) (t : ℕ)
    → IsAnswer c
    → IsAt (announced_state c) [] 0 0 s
    → ((step s (calls System.response_sent t t)).1 ≡ replied none)
      × IsAt RuntimeState.response_sent [] 1 0 (step s (calls System.response_sent t t)).0
unfolding step Gate.walk_through
sent-IsAt s c t response v = ground arith
sent-IsAt s c t error_response v = ground arith

ready-IsAt :
    (s : System) (t : ℕ)
    → IsAt RuntimeState.response_sent [] 1 0 s
    → ((step s (calls System.ready t t)).1 ≡ pending) × IsIdle 1 (step s (calls System.ready t t)).0
unfolding step Gate.walk_through
ready-IsAt s t v = ground arith

-- What the main thread finds at the two gates, by the number of passages.
abbrev status : ℕ → Await
status n = if n == 1 then passed none else blocked

IsAt-await :
    {st : RuntimeState} {ws : List Resume} (m n : ℕ) (s : System)
    → IsAt st ws m n s
    → (InvokeFlow.await_runtime_response (flow s) ≡ status m)
      × (InvokeFlow.await_runtime_ready (flow s) ≡ status n)
unfolding InvokeFlow.await_runtime_response InvokeFlow.await_runtime_ready Gate.await_gate_condition
IsAt-await m n s v = ground arith

-- When an invoke is dispatched to an idle runtime, its goroutine returns nil in the running state,
-- and both gates hold the main thread back.
pub dispatch-blocked :
    (s : System) (n t : ℕ)
    → IsIdle n s
    → let r = run s (dispatch t) in
      (r.1 ≡ pending ∷ pending ∷ replied none ∷ [])
      × (r.0.object.self.current_state ≡ RuntimeState.running)
      × (InvokeFlow.await_runtime_response (flow r.0) ≡ blocked)
      × (InvokeFlow.await_runtime_ready (flow r.0) ≡ blocked)
dispatch-blocked s n t v =
    let (replies, v') = dispatch-IsAt s n t v in
    let (a, b) = IsAt-await 0 0 (run s (dispatch t)).0 v' in (replies, v'.at, a, b)

answer-IsIdle :
    (s : System) (c : Call) (t : ℕ)
    → IsAnswer c
    → IsAt RuntimeState.running [] 0 0 s
    → ((run s (answer c t)).1 ≡ replied none ∷ replied none ∷ pending ∷ [])
      × IsIdle 1 (run s (answer c t)).0
unfolding run
answer-IsIdle s c t k v =
    let (r₁, v₁) = announce-IsAt s c t k v in
    let (r₂, v₂) = sent-IsAt _ c t k v₁ in let (r₃, v₃) = ready-IsAt _ t v₂ in (rw (r₁, r₂, r₃), v₃)

pub run-append :
    (s : System) (xs ys : List Event)
    → ((run s (xs ++ ys)).0 ≡ (run (run s xs).0 ys).0)
      × ((run s (xs ++ ys)).1 ≡ (run s xs).1 ++ (run (run s xs).0 ys).1)
unfolding run
run-append s [] ys = (refl, refl)
run-append s (x ∷ xs) ys =
    let (a, b) = run-append (step s x).0 xs ys in (a, ap (◌∷◌ (step s x).1) b)

-- A whole invoke.
abbrev pub invoke : Call → ℕ → List Event
invoke c t = dispatch t ++ answer c t

-- An idle runtime that answers an invoke, by a response or an error response, gets nil from every
-- call, is idle again, and the main thread passes both gates with no error.
pub invoke-IsIdle :
    (s : System) (n t : ℕ) (c : Call)
    → IsIdle n s
    → IsAnswer c
    → let r = run s (invoke c t) in
      (r.1 ≡ pending ∷ pending ∷ replied none ∷ replied none ∷ replied none ∷ pending ∷ [])
      × IsIdle 1 r.0
      × (InvokeFlow.await_runtime_response (flow r.0) ≡ passed none)
      × (InvokeFlow.await_runtime_ready (flow r.0) ≡ passed none)
invoke-IsIdle s n t c v k =
    let (p, v₁) = dispatch-IsAt s n t v in
    let (q, v₂) = answer-IsIdle (run s (dispatch t)).0 c t k v₁ in
    let (same, replies) = run-append s (dispatch t) (answer c t) in
    let v₃ = subst (IsIdle 1) (sym same) v₂ in
    let (a, b) = IsAt-await 1 1 (run s (invoke c t)).0 v₃ in (replies ∙ ap₂ ◌++◌ p q, v₃, a, b)

-- Invokes one after the other, each with its answer and its time.
abbrev pub invokes : List (Call × ℕ) → List Event
invokes [] = []
invokes ((c, t) ∷ is) = invoke c t ++ invokes is

abbrev pub AllAnswers : List (Call × ℕ) → Type 0
AllAnswers [] = Unit {0}
AllAnswers ((c, t) ∷ is) = IsAnswer c × AllAnswers is

-- Any number of invokes in a row leaves the runtime idle, so it can always take one more.
pub invokes-IsIdle :
    (s : System) (n : ℕ) (is : List (Call × ℕ))
    → IsIdle n s
    → AllAnswers is
    → (m : ℕ) × IsIdle m (run s (invokes is)).0
unfolding run
invokes-IsIdle s n [] v k = (n, v)
invokes-IsIdle s n ((c, t) ∷ is) v k =
    let (same, _) = run-append s (invoke c t) (invokes is) in
    let (_, idle, _, _) = invoke-IsIdle s n t c v k.0 in
    let (m, last) = invokes-IsIdle (run s (invoke c t)).0 1 is idle k.1 in
    (m, subst (IsIdle m) (sym same) last)
