-- ===== src/Core/Thread.antt =====
-- internal/lambda/core/states.go, `ManagedThread`, and how a method of a state object runs.
-- A method holds the thread's mutex, but for the wait in `SuspendUnsafe`: so it is one step up to
-- that wait, and one more for each time that it is woken.
use lambda_runtime_init.Base.{Bool, true, false, Option, none, some, if◌then◌else◌}
use lambda_runtime_init.Core.Error.{Error}
use lambda_runtime_init.Core.InitFlow.{InitFlow}
use lambda_runtime_init.Core.InvokeFlow.{InvokeFlow}

-- The condition variable's mutex and wait queue are in the interleaving.
pub record ManagedThread : Type 0 where
  pub operator_condition_value : Bool

unfoldable pub new_managed_thread : ManagedThread
new_managed_thread = record { operator_condition_value = false }

unfoldable pub release : ManagedThread → ManagedThread
release s = record s { operator_condition_value = true }

-- The loop of `SuspendUnsafe` at its test: it goes on and resets the value, or it waits (again).
unfoldable pub suspend_unsafe : ManagedThread → Option ManagedThread
suspend_unsafe s =
    if s.operator_condition_value
    then some (record s { operator_condition_value = false })
    else none

-- A state object with the flows that its states point to.
pub record Object (A : Type 0) : Type 0 where
  pub self : A
  pub init_flow : InitFlow
  pub invoke_flow : InvokeFlow

-- What a suspended call does after its wait: the state that it moves to.
pub data Resume : Type 0 where
  to_running to_restoring : Resume

-- A call has returned an error or nil, or waits for its operator.
pub data Outcome : Type 0 where
  returned : Option Error → Outcome
  suspended : Resume → Outcome

-- A part of a method: it changes the object, and goes on (`none`) or ends the method.
abbrev pub Action : Type 0 → Type 0
Action A = Object A → Object A × Option Outcome

infixl 5 ◌>>◌
abbrev pub ◌>>◌ : {A : Type 0} → Action A → Action A → Action A
◌>>◌ a b o = let (o', r) = a o in elim r [ none ↦ b o' | some end ↦ (o', some end) ]

-- A method that runs to its end returns nil.
abbrev pub method : {A : Type 0} → Action A → Object A → Object A × Outcome
method a o = let (o', r) = a o in elim r [ none ↦ (o', returned none) | some end ↦ (o', end) ]

abbrev pub fail : {A : Type 0} → Error → Action A
fail e o = (o, some (returned (some e)))

abbrev pub modify : {A : Type 0} → (A → A) → Action A
modify f o = (record o { self = f o.self }, none)

abbrev pub stop_on : Option Error → Option Outcome
stop_on none = none
stop_on (some e) = some (returned (some e))

-- A call of a flow, whose error ends the method.
abbrev pub init_call : {A : Type 0} → (InitFlow → InitFlow × Option Error) → Action A
init_call f o = let (flow, e) = f o.init_flow in (record o { init_flow = flow }, stop_on e)

abbrev pub invoke_call : {A : Type 0} → (InvokeFlow → InvokeFlow × Option Error) → Action A
invoke_call f o = let (flow, e) = f o.invoke_flow in (record o { invoke_flow = flow }, stop_on e)

-- The same with the error ignored.
abbrev pub init_call_ignoring : {A : Type 0} → (InitFlow → InitFlow × Option Error) → Action A
init_call_ignoring f o = let (flow, e) = f o.init_flow in (record o { init_flow = flow }, none)

abbrev pub invoke_call_ignoring : {A : Type 0} → (InvokeFlow → InvokeFlow × Option Error) → Action A
invoke_call_ignoring f o =
    let (flow, e) = f o.invoke_flow in (record o { invoke_flow = flow }, none)
