-- ===== src/Managed/Running/Laws.antt =====
-- How many messages of a runtime one invoke takes.
use lambda_runtime_init.Base.{◌+◌, ◌≤◌, ◌≡◌, refl, List, [], ◌∷◌, String, arith}
use lambda_runtime_init.Managed.Running.{
  ResponseState, no_response, got_response, got_error, RunningInvoke, new_running_invoke,
  runtime_response, response_reverts, runtime_error, invoke_fails, invoke_starts,
}

pub data Op : Type 0 where
  starts responds errs : String → Op
  reverts fails : Op

unfoldable pub step : RunningInvoke → Op → RunningInvoke
unfolding runtime_response response_reverts runtime_error invoke_fails invoke_starts
step r (starts id) = invoke_starts id r
step r (responds echoed) = (runtime_response echoed r).0
step r reverts = (response_reverts r).0
step r (errs echoed) = (runtime_error echoed r).0
step r fails = invoke_fails r

unfoldable pub run : RunningInvoke → List Op → RunningInvoke
unfolding step
run r [] = r
run r (o ∷ os) = run (step r o) os

-- A response that was taken, or that is to be reverted, holds the state; an error keeps it.
abbrev ByState : ResponseState → RunningInvoke → Type 0
ByState no_response r = (r.reverting + r.responses ≡ 0) × (r.errors ≡ 0)
ByState got_response r = (r.reverting + r.responses ≡ 1) × (r.errors ≡ 0)
ByState got_error r = (r.reverting + r.responses ≤ 1) × (r.errors ≤ 1)

abbrev pub IsValid : RunningInvoke → Type 0
IsValid r = ByState r.response_state r

step-IsValid : (r : RunningInvoke) (o : Op) → IsValid r → IsValid (step r o)
unfolding step
step-IsValid r (starts id) v = ground arith
step-IsValid r (responds echoed) v = ground arith
step-IsValid r reverts v = ground arith
step-IsValid r (errs echoed) v = ground arith
step-IsValid r fails v = ground arith

run-IsValid : (r : RunningInvoke) (os : List Op) → IsValid r → IsValid (run r os)
unfolding run
run-IsValid r [] v = v
run-IsValid r (o ∷ os) v = run-IsValid (step r o) os (step-IsValid r o v)

valid-once : (r : RunningInvoke) → IsValid r → (r.responses ≤ 1) × (r.errors ≤ 1)
valid-once r v = ground arith

-- Whatever a runtime sends of one invoke, in any interleaving, also with another invocation's ID or after
-- the invoke failed: one response at most is passed on, and one error at most.
pub run-once :
    (os : List Op) → let r = run new_running_invoke os in (r.responses ≤ 1) × (r.errors ≤ 1)
unfolding new_running_invoke
run-once os =
    valid-once (run new_running_invoke os) (run-IsValid new_running_invoke os (refl, refl))
