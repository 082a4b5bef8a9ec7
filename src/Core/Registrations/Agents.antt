-- ===== src/Core/Registrations/Agents.antt =====
-- The names of extensions over every history of registrations.
use lambda_runtime_init.Base.{
  ℕ, ◌<◌, ◌≡◌, refl, sym, subst, ◌⊎◌, inl, inr, Option, none, List, [], ◌∷◌, String, arith,
}
use lambda_runtime_init.Core.Error.{Error}
use lambda_runtime_init.Core.InitFlow.{InitFlow}
use lambda_runtime_init.Core.InvokeFlow.{InvokeFlow}
use lambda_runtime_init.Core.AgentsMap.{
  AgentRef, AgentsMap, find_by_name, find_by_id, insert_agent, new_agents_map,
}
use lambda_runtime_init.Core.AgentsMap
use lambda_runtime_init.Core.AgentsMap.Laws.{
  IsConsistent, clear-IsConsistent, insert_agent-IsConsistent, insert_agent-find, new-IsConsistent,
}
use lambda_runtime_init.Core.Registrations.{
  Memory, RegistrationService, add_external, add_internal, create_external_agent,
  create_internal_agent, preregister_runtime, turn_off, clear, cancel_flows, count_agents_unsafe,
  max_agents_allowed, new_registration_service,
}

-- Both maps are consistent, and no name is that of an internal and of an external extension.
pub record IsValid (s : RegistrationService) : Type 0 where
  pub internal : IsConsistent s.internal_agents
  pub external : IsConsistent s.external_agents
  pub apart :
      (n : String)
      → (find_by_name s.internal_agents n ≡ none) ⊎ (find_by_name s.external_agents n ≡ none)

-- A call of the service.
pub data Call : Type 0 where
  creates_external creates_internal : String → String → ℕ → Call
  preregisters : ℕ → Call
  turns_off clears : Call
  cancels : Option Error → Call

unfoldable pub step : Memory × RegistrationService → Call → Memory × RegistrationService
unfolding create_external_agent create_internal_agent preregister_runtime turn_off clear
    cancel_flows
step (h, s) (creates_external name id now) =
    let (h', s', c) = create_external_agent name id now h s in (h', s')
step (h, s) (creates_internal name id now) =
    let (h', s', c) = create_internal_agent name id now h s in (h', s')
step (h, s) (preregisters r) = (h, (preregister_runtime r s).0)
step (h, s) turns_off = (h, turn_off s)
step (h, s) clears = (h, clear s)
step (h, s) (cancels e) = (h, cancel_flows e s)

unfoldable pub run : Memory × RegistrationService → List Call → Memory × RegistrationService
run w [] = w
run w (c ∷ cs) = run (step w c) cs

-- Making an external agent puts it into its map, or changes nothing.
pub add_external_cases :
    (a : AgentRef) (s : RegistrationService)
    → ((find_by_name s.internal_agents a.name ≡ none)
        × ((add_external a s).0
            ≡ record s { external_agents = (insert_agent s.external_agents a).0 }))
      ⊎ ((add_external a s).0 ≡ s)
unfolding add_external
add_external_cases a s = ground arith

pub add_internal_cases :
    (a : AgentRef) (s : RegistrationService)
    → ((find_by_name s.external_agents a.name ≡ none)
        × (count_agents_unsafe s < max_agents_allowed)
        × ((add_internal a s).0
            ≡ record s { internal_agents = (insert_agent s.internal_agents a).0 }))
      ⊎ ((add_internal a s).0 ≡ s)
unfolding add_internal
add_internal_cases a s = ground arith

-- A name that only one map gets stays apart from the other map's.
apart-insert :
    (m k : AgentsMap) (a : AgentRef) (n : String)
    → find_by_name k a.name ≡ none
    → (find_by_name k n ≡ none) ⊎ (find_by_name m n ≡ none)
    → (find_by_name k n ≡ none) ⊎ (find_by_name (insert_agent m a).0 n ≡ none)
apart-insert m k a n free old = elim (insert_agent-find m a n) [
  | inl same ↦ ground arith
  | inr hit ↦ inl (subst (λ (x : String). find_by_name k x ≡ none) hit free)
]

add_external-IsValid :
    (a : AgentRef) (s : RegistrationService) → IsValid s → IsValid (add_external a s).0
add_external-IsValid a s v = elim (add_external_cases a s) [
  | inr e ↦ subst IsValid (sym e) v
  | inl (free, e) ↦ subst IsValid (sym e) (record {
    internal = v.internal;
    external = insert_agent-IsConsistent s.external_agents a v.external;
    apart = λ n. apart-insert s.external_agents s.internal_agents a n free (v.apart n);
  })
]

swap_sides {ℓ} : {A B : Type ℓ} → A ⊎ B → B ⊎ A
swap_sides (inl a) = inr a
swap_sides (inr b) = inl b

add_internal-IsValid :
    (a : AgentRef) (s : RegistrationService) → IsValid s → IsValid (add_internal a s).0
add_internal-IsValid a s v = elim (add_internal_cases a s) [
  | inr e ↦ subst IsValid (sym e) v
  | inl (free, _, e) ↦ subst IsValid (sym e) (record {
    internal = insert_agent-IsConsistent s.internal_agents a v.internal;
    external = v.external;
    apart = λ n.
        swap_sides
          (apart-insert s.internal_agents s.external_agents a n free (swap_sides (v.apart n)));
  })
]

clear-IsValid : (s : RegistrationService) → IsValid (clear s)
unfolding clear
clear-IsValid s = record {
  internal = clear-IsConsistent s.internal_agents;
  external = clear-IsConsistent s.external_agents;
  apart = λ n. inl (unfold find_by_name AgentsMap.clear in refl);
}

with_agents :
    (s t : RegistrationService)
    → t.internal_agents ≡ s.internal_agents
    → t.external_agents ≡ s.external_agents
    → IsValid s
    → IsValid t
with_agents s t i e v = record {
  internal = subst IsConsistent (sym i) v.internal;
  external = subst IsConsistent (sym e) v.external;
  apart = λ n. rw (i, e) (v.apart n);
}

preregister_runtime-agents :
    (r : ℕ) (s : RegistrationService)
    → ((preregister_runtime r s).0.internal_agents ≡ s.internal_agents)
      × ((preregister_runtime r s).0.external_agents ≡ s.external_agents)
unfolding preregister_runtime
preregister_runtime-agents r s = ground arith

cancel_flows-agents :
    (e : Option Error) (s : RegistrationService)
    → ((cancel_flows e s).internal_agents ≡ s.internal_agents)
      × ((cancel_flows e s).external_agents ≡ s.external_agents)
unfolding cancel_flows
cancel_flows-agents e s = ground arith

-- Every call keeps the two kinds of extensions apart: no name is registered twice, and whoever is
-- found by name is the one that is found by ID.
pub step_service-IsValid :
    (w : Memory × RegistrationService) (c : Call) → IsValid w.1 → IsValid (step w c).1
unfolding step
step_service-IsValid (h, s) (creates_external name id now) v = add_external-IsValid _ s v
step_service-IsValid (h, s) (creates_internal name id now) v = add_internal-IsValid _ s v
step_service-IsValid (h, s) (preregisters r) v =
    with_agents s _ (preregister_runtime-agents r s).0 (preregister_runtime-agents r s).1 v
step_service-IsValid (h, s) turns_off v = with_agents s (turn_off s) refl refl v
step_service-IsValid (h, s) clears v = clear-IsValid s
step_service-IsValid (h, s) (cancels e) v =
    with_agents s (cancel_flows e s) (cancel_flows-agents e s).0 (cancel_flows-agents e s).1 v

-- After any history of calls to a valid service, no name is that of an internal and of an external
-- extension, and in both maps whoever is found by name is found by ID.
pub run_service-IsValid :
    (w : Memory × RegistrationService) (cs : List Call) → IsValid w.1 → IsValid (run w cs).1
unfolding run
run_service-IsValid w [] v = v
run_service-IsValid w (c ∷ cs) v = run_service-IsValid (step w c) cs (step_service-IsValid w c v)

pub new-IsValid : (f : InitFlow) (g : InvokeFlow) → IsValid (new_registration_service f g)
unfolding new_registration_service
new-IsValid f g = record {
  internal = new-IsConsistent;
  external = new-IsConsistent;
  apart = λ n. inl (unfold find_by_name new_agents_map in refl);
}
