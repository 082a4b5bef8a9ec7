-- ===== src/Core/Runtime/System.antt =====
-- The runtime in its surroundings: goroutines of the Runtime API call its methods and may wait in
-- one, and the main thread releases it and prepares, cancels and clears the flows. Any order of these
-- steps is a history.
use lambda_runtime_init.Base.{ℕ, Option, none, some, List, [], ◌∷◌, ◌++◌, get_elem?, erase_idx}
use lambda_runtime_init.Core.Error.{Error, FunctionError}
use lambda_runtime_init.Core.InitFlow
use lambda_runtime_init.Core.InvokeFlow
use lambda_runtime_init.Core.Thread.{Object, Resume, Outcome, returned, suspended}
use lambda_runtime_init.Core.Runtime.{Runtime, release}
use lambda_runtime_init.Core.Runtime.Methods

-- A request of the Runtime API, or what follows one.
pub data Call : Type 0 where
  ready restore_ready init_error invocation_response invocation_error_response response_sent : Call
  restore_error : FunctionError → Call

unfoldable pub call : Call → ℕ → ℕ → Object Runtime → Object Runtime × Outcome
unfolding Methods.ready Methods.restore_ready Methods.init_error Methods.invocation_response
    Methods.invocation_error_response Methods.response_sent Methods.restore_error
call ready now later = Methods.ready now later
call restore_ready now later = Methods.restore_ready now later
call init_error now later = Methods.init_error now
call invocation_response now later = Methods.invocation_response now
call invocation_error_response now later = Methods.invocation_error_response now
call response_sent now later = Methods.response_sent now later
call (restore_error e) now later = Methods.restore_error e now

-- `wakes i now`: the `i`-th waiting goroutine is scheduled.
pub data Event : Type 0 where
  calls : Call → ℕ → ℕ → Event
  wakes : ℕ → ℕ → Event
  releases initializes_barriers clears_init clears_invoke : Event
  cancels_init cancels_invoke : Option Error → Event

-- The object, and the goroutines that wait on its operator condition.
pub record System : Type 0 where
  pub object : Object Runtime
  pub waiting : List Resume

-- What the goroutine that made the step got back, if its call ended.
pub data Reply : Type 0 where
  pending : Reply
  replied : Option Error → Reply

abbrev pub after_call : List Resume → Object Runtime × Outcome → System × Reply
after_call ws (o, returned e) = (record { object = o; waiting = ws }, replied e)
after_call ws (o, suspended r) = (record { object = o; waiting = ws ++ r ∷ [] }, pending)

-- A goroutine that is woken before its time waits on, in its place.
abbrev pub after_wake : System → ℕ → Object Runtime × Outcome → System × Reply
after_wake s i (o, returned e) = (record { object = o; waiting = erase_idx s.waiting i }, replied e)
after_wake s i (o, suspended r) = (record { object = o; waiting = s.waiting }, pending)

abbrev on_object : (Object Runtime → Object Runtime) → System → System × Reply
on_object f s = (record s { object = f s.object }, pending)

unfoldable pub step : System → Event → System × Reply
unfolding call Methods.wake release InvokeFlow.initialize_barriers InvokeFlow.clear InitFlow.clear
    InitFlow.cancel_with_error InvokeFlow.cancel_with_error
step s (calls c now later) = after_call s.waiting (call c now later s.object)
step s (wakes i now) = elim (get_elem? s.waiting i) [
  | none ↦ (s, pending)
  | some r ↦ after_wake s i (Methods.wake r now s.object)
]
step s releases = on_object (λ o. record o { self = release o.self }) s
step s initializes_barriers =
    on_object (λ o. record o { invoke_flow = InvokeFlow.initialize_barriers o.invoke_flow }) s
step s clears_init = on_object (λ o. record o { init_flow = InitFlow.clear o.init_flow }) s
step s clears_invoke = on_object (λ o. record o { invoke_flow = InvokeFlow.clear o.invoke_flow }) s
step s (cancels_init e) =
    on_object (λ o. record o { init_flow = InitFlow.cancel_with_error o.init_flow e }) s
step s (cancels_invoke e) =
    on_object (λ o. record o { invoke_flow = InvokeFlow.cancel_with_error o.invoke_flow e }) s

-- A history, with the replies in the order of the steps.
unfoldable pub run : System → List Event → System × List Reply
run s [] = (s, [])
run s (e ∷ es) = let (s', r) = step s e in let (final, rs) = run s' es in (final, r ∷ rs)
