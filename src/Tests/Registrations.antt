-- ===== src/Tests/Registrations.antt =====
-- Concrete inputs for internal/lambda/core/agentsmap.go and registrations.go.
use lambda_runtime_init.Base.{ℕ, ◌+◌, ◌≤◌, ◌≡◌, refl, ◌⊎◌, false, none, some, List, [], ◌∷◌, String}
use lambda_runtime_init.Core.Error.{restore_hook_timeout}
use lambda_runtime_init.Core.Gate.{passed}
use lambda_runtime_init.Core.InitFlow.{new_init_flow}
use lambda_runtime_init.Core.InvokeFlow.{new_invoke_flow}
use lambda_runtime_init.Core.AgentsMap.{AgentRef, new_agents_map, find_by_name, find_by_id, visited}
use lambda_runtime_init.Core.Registrations.{
  Memory, RegistrationService, new_registration_service, on, off, add_internal, cancel_flows,
  count_agents, count_agents_unsafe,
}
use lambda_runtime_init.Core.Registrations.Agents.{
  IsValid, creates_external, creates_internal, preregisters, cancels, step, run,
  step_service-IsValid, run_service-IsValid, new-IsValid,
}
use lambda_runtime_init.Core.Registrations.Limits.{add_internal-limit, run-off, SameRegistered}
use lambda_runtime_init.Core.Registrations.Cancel.{AllAnswer, cancel_flows-first}

abbrev agent : AgentRef
agent = record { address = 0; name = "a"; id = "1" }

free_name : find_by_name new_agents_map "a" ≡ none
unfolding find_by_name new_agents_map
free_name = refl

free_id : find_by_id new_agents_map "1" ≡ none
unfolding find_by_id new_agents_map
free_id = refl

abbrev fresh : RegistrationService
fresh = new_registration_service new_init_flow new_invoke_flow

abbrev empty : Memory
empty = record { runtimes = []; externals = []; internals = [] }

step_service-IsValid_example : IsValid (step (empty, fresh) (creates_external "a" "1" 5)).1
step_service-IsValid_example =
    step_service-IsValid (empty, fresh) (creates_external "a" "1" 5)
      (new-IsValid new_init_flow new_invoke_flow)

run_service-IsValid_example :
    IsValid (run (empty, fresh) (creates_external "a" "1" 5 ∷ creates_internal "a" "2" 6 ∷ [])).1
run_service-IsValid_example =
    run_service-IsValid (empty, fresh)
      (creates_external "a" "1" 5 ∷ creates_internal "a" "2" 6 ∷ [])
      (new-IsValid new_init_flow new_invoke_flow)

fresh-count : count_agents fresh ≡ 0
unfolding count_agents count_agents_unsafe new_registration_service visited new_agents_map
fresh-count = refl

add_internal-limit_example :
    ((count_agents (add_internal agent fresh).0 ≡ count_agents fresh + 1)
      × (count_agents (add_internal agent fresh).0 ≤ 10))
    ⊎ ((add_internal agent fresh).0 ≡ fresh)
add_internal-limit_example = add_internal-limit agent fresh

-- Ten external extensions.
abbrev refs : ℕ → List (String × AgentRef)
refs _ =
    ("a", agent)
    ∷ ("b", agent)
    ∷ ("c", agent)
    ∷ ("d", agent)
    ∷ ("e", agent)
    ∷ ("f", agent)
    ∷ ("g", agent)
    ∷ ("h", agent)
    ∷ ("i", agent)
    ∷ ("j", agent)
    ∷ []

abbrev full : RegistrationService
full = record fresh { external_agents = record { by_name = refs 0; by_id = refs 0 }; state = on }

full-count : count_agents full ≡ 10
unfolding count_agents count_agents_unsafe new_registration_service visited new_agents_map
full-count = refl

abbrev closed : RegistrationService
closed = record fresh { state = off }

run-off_example :
    SameRegistered (run (empty, closed) (creates_internal "a" "1" 5 ∷ preregisters 0 ∷ [])).1 closed
run-off_example = run-off (empty, closed) (creates_internal "a" "1" 5 ∷ preregisters 0 ∷ []) tt refl

abbrev uncancelled : RegistrationService
uncancelled = record fresh { cancelled = false }

cancel_flows-first_example :
    AllAnswer
      (passed (some restore_hook_timeout))
      (run
        (empty, cancel_flows (some restore_hook_timeout) uncancelled)
        (cancels none ∷ creates_external "a" "1" 5 ∷ [])).1
cancel_flows-first_example =
    cancel_flows-first (some restore_hook_timeout) empty uncancelled
      (cancels none ∷ creates_external "a" "1" 5 ∷ []) refl tt
