-- ===== src/Core/Gate/Cancel.antt =====
-- A canceled gate stays canceled until it is cleared.
use lambda_runtime_init.Base.{
  ◌≡◌, refl, ◌∙◌, ◌⊎◌, true, Option, none, some, List, [], ◌∷◌, arith, or_else, ◌==◌, if◌then◌else◌,
}
use lambda_runtime_init.Core.Error.{Error, gate_canceled}
use lambda_runtime_init.Core.Gate.{
  Gate, blocked, passed, Call, registers, sets_count, resets, walks, clears, cancels,
  cancel_with_error, clear, await_gate_condition, step,
}

-- A history in which the gate is neither cleared nor canceled anew.
abbrev pub Uncleared : List Call → Type 0
Uncleared [] = Unit {0}
Uncleared (clears ∷ cs) = ⊥
Uncleared (cancels e ∷ cs) = ⊥
Uncleared (registers _ ∷ cs) = Uncleared cs
Uncleared (sets_count _ ∷ cs) = Uncleared cs
Uncleared (resets ∷ cs) = Uncleared cs
Uncleared (walks ∷ cs) = Uncleared cs

unfoldable pub run : Gate → List Call → Gate
run g [] = g
run g (c ∷ cs) = run (step g c) cs

await-canceled :
    (g : Gate) (e : Option Error)
    → g.canceled ≡ true
    → g.err ≡ e
    → await_gate_condition g ≡ passed (some (or_else e gate_canceled))
unfolding await_gate_condition
await-canceled g e c h = ground arith

-- What one call does to a canceled gate.
step-canceled :
    (g : Gate) (c : Call) (cs : List Call)
    → Uncleared (c ∷ cs)
    → g.canceled ≡ true
    → ((step g c).canceled ≡ true)
      × ((step g c).err ≡ g.err)
      × ((step g c).arrived ≡ g.arrived ⊎ (c ≡ walks))
      × Uncleared cs
unfolding step
step-canceled g (registers n) cs u h = ground arith
step-canceled g (sets_count n) cs u h = ground arith
step-canceled g resets cs u h = ground arith
step-canceled g walks cs u h = ground arith
step-canceled g clears cs u h = elim u [ ]
step-canceled g (cancels e) cs u h = elim u [ ]

run-canceled :
    (g : Gate) (cs : List Call)
    → Uncleared cs
    → g.canceled ≡ true
    → ((run g cs).canceled ≡ true) × ((run g cs).err ≡ g.err)
unfolding run
run-canceled g [] u h = (h, refl)
run-canceled g (c ∷ cs) u h =
    let (k, e, _, rest) = step-canceled g c cs u h in
    let (k', e') = run-canceled (step g c) cs rest k in (k', e' ∙ e)

-- Once a gate is canceled with an error, whoever waits at it gets that error (`gate_canceled` for
-- nil), whatever calls come in between, until the gate is cleared or canceled anew.
pub cancel-await :
    (g : Gate) (e : Option Error) (cs : List Call)
    → Uncleared cs
    → await_gate_condition (run (cancel_with_error g e) cs)
      ≡ passed (some (or_else e gate_canceled))
unfolding cancel_with_error
cancel-await g e cs u =
    let (k, same) = run-canceled (cancel_with_error g e) cs u refl in await-canceled _ e k same

-- A cleared gate has forgotten its arrivals and its cancellation, and keeps its count: it waits
-- unless it expects nobody.
pub clear-await :
    (g : Gate) → await_gate_condition (clear g) ≡ (if g.count == 0 then passed none else blocked)
unfolding clear await_gate_condition
clear-await g = ground arith
