-- ===== src/Core/Registrations/Limits.antt =====
-- How many extensions can register, and when.
use lambda_runtime_init.Base.{
  ℕ, suc, ◌+◌, ◌<◌, ◌≤◌, ◌≡◌, refl, ap, ◌∙◌, ◌⊎◌, inl, inr, List, [], ◌∷◌, String, arith, length,
}
use lambda_runtime_init.Base.Dict.{values}
use lambda_runtime_init.Core.Error.{too_many_extensions}
use lambda_runtime_init.Core.AgentsMap.{AgentRef, AgentsMap, insert_agent, visited, size}
use lambda_runtime_init.Core.AgentsMap.Laws.{insert_agent-size}
use lambda_runtime_init.Core.Registrations.{
  Memory, RegistrationService, on, off, failed, add_external, add_internal, count_agents,
  count_agents_unsafe, count_visits, max_agents_allowed, get_registered_agents_size,
}
use lambda_runtime_init.Core.Registrations.Agents.{
  Call, creates_external, creates_internal, preregisters, turns_off, clears, cancels, step, run,
  add_internal_cases,
}

count_visits-eq : (n : ℕ) (l : List AgentRef) → count_visits n l ≡ n + length l
count_visits-eq n [] = omega arith
count_visits-eq n (a ∷ more) = omega (arith, count_visits-eq (n + 1) more)

length-values : (m : List (String × AgentRef)) → length (values m) ≡ length m
length-values [] = refl
length-values ((k, a) ∷ m) = ap suc (length-values m)

-- The count by visits is the sum of the two sizes.
count-size :
    (s : RegistrationService)
    → count_agents_unsafe s ≡ size s.external_agents + size s.internal_agents
unfolding count_agents_unsafe visited size
count-size s = omega (
  arith,
  count_visits-eq (count_visits 0 (values s.external_agents.by_name))
      (values s.internal_agents.by_name),
  count_visits-eq 0 (values s.external_agents.by_name),
  length-values s.external_agents.by_name,
  length-values s.internal_agents.by_name,
)

-- The uint16 that sets the gates' counts is the number of extensions, as long as that fits.
pub registered_size-count :
    (s : RegistrationService)
    → count_agents s < 65536
    → get_registered_agents_size s ≡ count_agents s
unfolding get_registered_agents_size count_agents
registered_size-count s h = omega (arith, count-size s)

-- An internal extension is added only below the limit: the count goes up by one and stays within
-- the limit, or nothing changes.
pub add_internal-limit :
    (a : AgentRef) (s : RegistrationService)
    → ((count_agents (add_internal a s).0 ≡ count_agents s + 1)
        × (count_agents (add_internal a s).0 ≤ max_agents_allowed))
      ⊎ ((add_internal a s).0 ≡ s)
add_internal-limit a s = elim (add_internal_cases a s) [
  | inr e ↦ inr e
  | inl (_, room, e) ↦ elim (insert_agent-size s.internal_agents a) [
    | inr same ↦ inr (e ∙ ap (λ (m : AgentsMap). record s { internal_agents = m }) same)
    | inl (_, more) ↦
        let t : RegistrationService = record s {
          internal_agents = (insert_agent s.internal_agents a).0;
        } in
        let counted : count_agents (add_internal a s).0 ≡ count_agents s + 1 =
          ap count_agents e
          ∙ unfold count_agents in omega (arith, more, count-size t, count-size s) in
        inl (counted, unfold count_agents in omega (arith, counted, room))
  ]
]

-- With the limit reached and the service on, an internal extension is refused for that reason, and nothing changes.
pub add_internal-full :
    (a : AgentRef) (s : RegistrationService)
    → s.state ≡ on
    → max_agents_allowed ≤ count_agents s
    → add_internal a s ≡ (s, failed too_many_extensions)
unfolding add_internal count_agents
add_internal-full a s o h = ground arith

-- A history in which the service is not cleared.
abbrev pub NoClear : List Call → Type 0
NoClear [] = Unit {0}
NoClear (clears ∷ cs) = ⊥
NoClear (creates_external _ _ _ ∷ cs) = NoClear cs
NoClear (creates_internal _ _ _ ∷ cs) = NoClear cs
NoClear (preregisters _ ∷ cs) = NoClear cs
NoClear (turns_off ∷ cs) = NoClear cs
NoClear (cancels _ ∷ cs) = NoClear cs

-- Who is registered.
abbrev pub SameRegistered : RegistrationService → RegistrationService → Type 0
SameRegistered s t =
    (s.external_agents ≡ t.external_agents)
    × (s.internal_agents ≡ t.internal_agents)
    × (s.runtime ≡ t.runtime)
    × (s.state ≡ t.state)

step-off :
    (w : Memory × RegistrationService) (c : Call) (cs : List Call)
    → NoClear (c ∷ cs)
    → w.1.state ≡ off
    → SameRegistered (step w c).1 w.1 × NoClear cs
unfolding step add_external add_internal
step-off (h, s) (creates_external name id now) cs n o = ground arith
step-off (h, s) (creates_internal name id now) cs n o = ground arith
step-off (h, s) (preregisters r) cs n o = ground arith
step-off (h, s) turns_off cs n o = ground arith
step-off (h, s) clears cs n o = elim n [ ]
step-off (h, s) (cancels e) cs n o = ground arith

-- Once the service is turned off, nobody registers any more until it is cleared.
pub run-off :
    (w : Memory × RegistrationService) (cs : List Call)
    → NoClear cs
    → w.1.state ≡ off
    → SameRegistered (run w cs).1 w.1
unfolding run
run-off w [] n o = (refl, refl, refl, refl)
run-off w (c ∷ cs) n o =
    let ((p, q, r, t), rest) = step-off w c cs n o in
    let (p', q', r', t') = run-off (step w c) cs rest (t ∙ o) in (p' ∙ p, q' ∙ q, r' ∙ r, t' ∙ t)
