-- ===== src/Core/Gate/Barrier.antt =====
-- Arrivals at a gate: how many are let through, and when those who wait may go on.
use lambda_runtime_init.Base.{
  ℕ, zero, suc, ◌+◌, ◌-◌, ◌≤◌, ◌≡◌, refl, false, Option, none, some, min, arith, ◌==◌,
  if◌then◌else◌,
}
use lambda_runtime_init.Core.Error.{Error}
use lambda_runtime_init.Core.Gate.{
  Gate, blocked, passed, Call, registers, sets_count, max_agents_limit, new_gate, walk_through,
  await_gate_condition, step,
}

-- No more have arrived than are expected, and the uint16 fields are in range.
pub record IsValid (g : Gate) : Type 0 where
  pub arrived-le-count : g.arrived ≤ g.count
  pub count-le-limit : g.count ≤ max_agents_limit

-- The count that a call puts in place is in range: an argument is an uint16, and `Register` does
-- not wrap.
abbrev pub Fits : Gate → Call → Type 0
Fits g (registers n) = g.count + n ≤ max_agents_limit
Fits g (sets_count n) = n ≤ max_agents_limit
Fits g _ = Unit {0}

-- Every call keeps a gate valid, provided that `Register` does not wrap the uint16 count.
pub step-IsValid : (g : Gate) (c : Call) → Fits g c → IsValid g → IsValid (step g c)
unfolding step
step-IsValid g (registers n) f v = ground arith
step-IsValid g (sets_count n) f v = ground arith
step-IsValid g c f v = ground arith

-- `n` arrivals in a row, and how many of them were refused.
abbrev pub refused : Option Error → ℕ
refused none = 0
refused (some e) = 1

pub arrivals : ℕ → Gate → Gate
arrivals zero g = g
arrivals (suc n) g = arrivals n (walk_through g).0

pub refusals : ℕ → Gate → ℕ
refusals zero g = 0
refusals (suc n) g = refused (walk_through g).1 + refusals n (walk_through g).0

walk_through-count : (g : Gate) → (walk_through g).0.count ≡ g.count
unfolding walk_through
walk_through-count g = ground arith

walk_through-canceled : (g : Gate) → (walk_through g).0.canceled ≡ g.canceled
unfolding walk_through
walk_through-canceled g = ground arith

walk_through-arrived :
    (g : Gate) → IsValid g → (walk_through g).0.arrived ≡ min (g.arrived + 1) g.count
unfolding walk_through
walk_through-arrived g v = ground arith

walk_through-refused :
    (g : Gate) → IsValid g → refused (walk_through g).1 ≡ 1 - (g.count - g.arrived)
unfolding walk_through
walk_through-refused g v = ground arith

pub walk_through-IsValid : (g : Gate) → IsValid g → IsValid (walk_through g).0
unfolding walk_through
walk_through-IsValid g v = ground arith

-- After `n` arrivals a valid gate holds `n` more, but never more than its count, and exactly the
-- arrivals beyond the count were refused.
pub arrivals-refusals :
    (n : ℕ) (g : Gate)
    → IsValid g
    → ((arrivals n g).arrived ≡ min (g.arrived + n) g.count)
      × (refusals n g ≡ n - (g.count - g.arrived))
      × ((arrivals n g).count ≡ g.count)
      × ((arrivals n g).canceled ≡ g.canceled)
unfolding arrivals refusals
arrivals-refusals zero g v = (omega arith, omega arith, refl, refl)
arrivals-refusals (suc n) g v =
    let w = (walk_through g).0 in
    let (a, r, c, k) = arrivals-refusals n w (walk_through-IsValid g v) in
    ground (
      arith,
      walk_through-count g,
      walk_through-canceled g,
      walk_through-arrived g v,
      walk_through-refused g v,
    )

await-eq :
    (g : Gate)
    → g.canceled ≡ false
    → await_gate_condition g ≡ (if g.arrived == g.count then passed none else blocked)
unfolding await_gate_condition
await-eq g h = ground arith

-- A new gate that expects `count` arrivals (an uint16) blocks after fewer than `count` arrivals,
-- and lets those who wait pass, with no error, from the `count`-th arrival on.
pub await-arrivals :
    (count n : ℕ)
    → count ≤ max_agents_limit
    → await_gate_condition (arrivals n (new_gate count))
      ≡ (if min n count == count then passed none else blocked)
unfolding new_gate
await-arrivals count n h =
    let (a, r, c, k) = arrivals-refusals n (new_gate count) (omega arith) in
    ground (arith, await-eq (arrivals n (new_gate count)))
