-- ===== src/Tests/Gate.antt =====
-- Concrete inputs for internal/lambda/core/gates.go.
use lambda_runtime_init.Base.{◌≡◌, refl, false, none, some, [], ◌∷◌, arith}
use lambda_runtime_init.Core.Error.{gate_integrity, restore_hook_timeout}
use lambda_runtime_init.Core.Gate.{
  Gate, passed, walks, resets, sets_count, set_count, cancel_with_error, await_gate_condition,
}
use lambda_runtime_init.Core.Gate.Barrier.{IsValid, arrivals, refusals, arrivals-refusals}
use lambda_runtime_init.Core.Gate.Cancel.{run, cancel-await}

-- One of two has arrived.
abbrev half : Gate
half = record { count = 2; arrived = 1; canceled = false; err = none }

half-IsValid : IsValid half
half-IsValid = ground arith

arrivals-refusals_example :
    ((arrivals 3 half).arrived ≡ 2)
    × (refusals 3 half ≡ 2)
    × ((arrivals 3 half).count ≡ 2)
    × ((arrivals 3 half).canceled ≡ false)
arrivals-refusals_example = arrivals-refusals 3 half half-IsValid

cancel-await_example :
    await_gate_condition (
      run (cancel_with_error half (some restore_hook_timeout)) (walks ∷ resets ∷ sets_count 7 ∷ []))
    ≡ passed (some restore_hook_timeout)
cancel-await_example =
    cancel-await half (some restore_hook_timeout) (walks ∷ resets ∷ sets_count 7 ∷ []) tt

-- A count below the arrivals, and one beyond an uint16, are refused.
set_count_test :
    ((set_count half 0).1 ≡ some gate_integrity)
    × ((set_count half 65536).1 ≡ some gate_integrity)
    × ((set_count half 1).1 ≡ none)
unfolding set_count
set_count_test = (refl, refl, refl)
