-- ===== src/Core/Gate.antt =====
-- internal/lambda/core/gates.go: a barrier that opens after a number of arrivals.
-- Every method runs under the gate's mutex, so a method is one step. `Broadcast` changes no field:
-- a goroutine that it wakes runs its test again, which is `await_gate_condition` once more.
pub mod Barrier
pub mod Cancel
use lambda_runtime_init.Base.{
  ℕ, ◌+◌, Bool, true, false, not, ◌&&◌, ◌||◌, Option, none, some, ltb, ◌==◌, if◌then◌else◌, u16,
  or_else,
}
use lambda_runtime_init.Core.Error.{Error, gate_integrity, gate_canceled}

abbrev pub max_agents_limit : ℕ
max_agents_limit = 65535

-- `gateImpl`; `err` is `none` for nil.
pub record Gate : Type 0 where
  pub count : ℕ  -- uint16
  pub arrived : ℕ  -- uint16
  pub canceled : Bool
  pub err : Option Error

unfoldable pub new_gate : ℕ → Gate
new_gate count = record { count = count; arrived = 0; canceled = false; err = none }

unfoldable pub register : Gate → ℕ → Gate
register g n = record g { count = u16 (g.count + n) }

unfoldable pub set_count : Gate → ℕ → Gate × Option Error
set_count g n =
    if ltb max_agents_limit n || ltb n g.arrived
    then (g, some gate_integrity)
    else (record g { count = n }, none)

unfoldable pub reset : Gate → Gate
reset g = if not g.canceled then record g { arrived = 0 } else g

unfoldable pub walk_through : Gate → Gate × Option Error
walk_through g =
    if g.arrived == g.count
    then (g, some gate_integrity)
    else (record g { arrived = u16 (g.arrived + 1) }, none)

-- What a goroutine at the gate finds when it runs its test: it waits on, or returns an error or nil.
pub data Await : Type 0 where
  blocked : Await
  passed : Option Error → Await

unfoldable pub await_gate_condition : Gate → Await
await_gate_condition g =
    if not (g.arrived == g.count) && not g.canceled
    then blocked
    else if g.canceled
    then passed (some (or_else g.err gate_canceled))
    else passed none

unfoldable pub cancel_with_error : Gate → Option Error → Gate
cancel_with_error g e = record g { canceled = true; err = e }

unfoldable pub clear : Gate → Gate
clear g = record g { canceled = false; arrived = 0; err = none }

-- One call on a gate, for statements about histories of calls.
pub data Call : Type 0 where
  registers sets_count : ℕ → Call
  resets walks clears : Call
  cancels : Option Error → Call

unfoldable pub step : Gate → Call → Gate
unfolding register set_count reset walk_through cancel_with_error clear
step g (registers n) = register g n
step g (sets_count n) = (set_count g n).0
step g resets = reset g
step g walks = (walk_through g).0
step g clears = clear g
step g (cancels e) = cancel_with_error g e
