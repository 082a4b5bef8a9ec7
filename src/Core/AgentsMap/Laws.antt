-- ===== src/Core/AgentsMap/Laws.antt =====
-- The two maps of an `AgentsMap` hold the same agents.
use lambda_runtime_init.Base.{
  ◌+◌, ◌≡◌, refl, sym, subst, ap, ◌∙◌, ◌⊎◌, inl, inr, Option, none, some, List, [], ◌∷◌, ◌++◌,
  String, str_eq, arith, length, length-append, if◌then◌else◌, Option-cases,
}
use text.Mathlib.TextEquality.{eq_iff}
use lambda_runtime_init.Base.Dict.{insert, values, lookup-insert, insert-new}
use lambda_runtime_init.Core.Error.{Error, agent_name_collision, agent_id_collision}
use lambda_runtime_init.Core.AgentsMap.{
  AgentRef, AgentsMap, new_agents_map, find_by_name, find_by_id, insert_agent, visited, size, clear,
}

-- Whoever is found by name is found by ID, and the other way round, under the keys of the agent's own;
-- both maps hold the same agents.
pub record IsConsistent (m : AgentsMap) : Type 0 where
  pub same_agents : values m.by_name ≡ values m.by_id
  pub by_name_sound :
      (n : String) (a : AgentRef)
      → find_by_name m n ≡ some a
      → (a.name ≡ n) × (find_by_id m a.id ≡ some a)
  pub by_id_sound :
      (i : String) (a : AgentRef)
      → find_by_id m i ≡ some a
      → (a.id ≡ i) × (find_by_name m a.name ≡ some a)

pub new-IsConsistent : IsConsistent new_agents_map
unfolding new_agents_map find_by_name find_by_id
new-IsConsistent = record {
  same_agents = refl;
  by_name_sound = λ n a h. cc;
  by_id_sound = λ i a h. cc;
}

pub clear-IsConsistent : (m : AgentsMap) → IsConsistent (clear m)
unfolding clear find_by_name find_by_id
clear-IsConsistent m = record {
  same_agents = refl;
  by_name_sound = λ n a h. cc;
  by_id_sound = λ i a h. cc;
}

abbrev inserted : AgentsMap → AgentRef → AgentsMap
inserted m a = record { by_name = insert a.name a m.by_name; by_id = insert a.id a m.by_id }

-- A refused insertion changes nothing, and an accepted one had no collision.
insert_agent_cases :
    (m : AgentsMap) (a : AgentRef)
    → ((find_by_name m a.name ≡ none)
        × (find_by_id m a.id ≡ none)
        × (insert_agent m a ≡ (inserted m a, none)))
      ⊎ ((e : Error) × (insert_agent m a ≡ (m, some e)))
unfolding insert_agent
insert_agent_cases m a = elim (Option-cases (find_by_name m a.name)) [
  | inr (b, e) ↦ inr (agent_name_collision, rw (e, insert_agent))
  | inl e ↦ elim (Option-cases (find_by_id m a.id)) [
    | inr (b, f) ↦ inr (agent_id_collision, rw (e, f, insert_agent))
    | inl f ↦ inl (e, f, rw (e, f, insert_agent))
  ]
]

values-append :
    (m : List (String × AgentRef)) (k : String) (a : AgentRef)
    → values (m ++ (k, a) ∷ []) ≡ values m ++ a ∷ []
values-append [] k a = refl
values-append ((j, b) ∷ m) k a = ap (◌∷◌ b) (values-append m k a)

module _ (m : AgentsMap) (a : AgentRef) where
  find_by_name-inserted :
      (n : String)
      → find_by_name (inserted m a) n ≡ (if str_eq a.name n then some a else find_by_name m n)
  unfolding find_by_name
  find_by_name-inserted n = lookup-insert a.name n a m.by_name

  find_by_id-inserted :
      (i : String)
      → find_by_id (inserted m a) i ≡ (if str_eq a.id i then some a else find_by_id m i)
  unfolding find_by_id
  find_by_id-inserted i = lookup-insert a.id i a m.by_id

  module _ (no_name : find_by_name m a.name ≡ none) (no_id : find_by_id m a.id ≡ none) where
    values-inserted :
        (values (inserted m a).by_name ≡ values m.by_name ++ a ∷ [])
        × (values (inserted m a).by_id ≡ values m.by_id ++ a ∷ [])
    unfolding find_by_name find_by_id
    values-inserted = (
      ap values (insert-new a.name a m.by_name no_name) ∙ values-append m.by_name a.name a,
      ap values (insert-new a.id a m.by_id no_id) ∙ values-append m.by_id a.id a,
    )

    inserted-IsConsistent : IsConsistent m → IsConsistent (inserted m a)
    inserted-IsConsistent c = record {
      same_agents =
          values-inserted.0
          ∙ ap (λ (l : List AgentRef). l ++ a ∷ []) c.same_agents
          ∙ sym values-inserted.1;
      by_name_sound = λ n b h. ground (
        arith,
        find_by_name-inserted n,
        find_by_id-inserted b.id,
        eq_iff a.name n,
        eq_iff a.id b.id,
        c.by_name_sound n b,
      );
      by_id_sound = λ i b h. ground (
        arith,
        find_by_id-inserted i,
        find_by_name-inserted b.name,
        eq_iff a.id i,
        eq_iff a.name b.name,
        c.by_id_sound i b,
      );
    }

-- Whether an insertion is refused or not, the two maps go on to hold the same agents, each under
-- its own name and ID.
pub insert_agent-IsConsistent :
    (m : AgentsMap) (a : AgentRef) → IsConsistent m → IsConsistent (insert_agent m a).0
insert_agent-IsConsistent m a c = elim (insert_agent_cases m a) [
  | inl (n, i, e) ↦
      subst (λ (r : AgentsMap × Option Error). IsConsistent r.0) (sym e)
        (inserted-IsConsistent m a n i c)
  | inr (x, e) ↦ subst (λ (r : AgentsMap × Option Error). IsConsistent r.0) (sym e) c
]

size-inserted :
    (m : AgentsMap) (a : AgentRef) → find_by_name m a.name ≡ none → size (inserted m a) ≡ size m + 1
unfolding size find_by_name
size-inserted m a n = omega (
  arith,
  ap (λ (l : List (String × AgentRef)). length l) (insert-new a.name a m.by_name n),
  length-append m.by_name ((a.name, a) ∷ []),
)

-- An insertion changes what is found under the agent's own name at most.
pub insert_agent-find :
    (m : AgentsMap) (a : AgentRef) (n : String)
    → (find_by_name (insert_agent m a).0 n ≡ find_by_name m n) ⊎ (a.name ≡ n)
insert_agent-find m a n = elim (insert_agent_cases m a) [
  | inl (_, _, e) ↦ ground (arith, e, find_by_name-inserted m a n, eq_iff a.name n)
  | inr (_, e) ↦ inl (ap (λ (r : AgentsMap × Option Error). find_by_name r.0 n) e)
]

pub insert_agent-size :
    (m : AgentsMap) (a : AgentRef)
    → ((insert_agent m a).1 ≡ none) × (size (insert_agent m a).0 ≡ size m + 1)
      ⊎ ((insert_agent m a).0 ≡ m)
insert_agent-size m a = elim (insert_agent_cases m a) [
  | inl (n, _, e) ↦ inl (
    ap (λ (r : AgentsMap × Option Error). r.1) e,
    ap (λ (r : AgentsMap × Option Error). size r.0) e ∙ size-inserted m a n,
  )
  | inr (_, e) ↦ inr (ap (λ (r : AgentsMap × Option Error). r.0) e)
]

insert_agent-eq :
    (m : AgentsMap) (a : AgentRef)
    → find_by_name m a.name ≡ none
    → find_by_id m a.id ≡ none
    → insert_agent m a ≡ (inserted m a, none)
unfolding insert_agent
insert_agent-eq m a n i = rw (n, i, insert_agent)

-- An agent whose name and ID are new is accepted, is found by both, hides nobody, and is visited
-- last.
pub insert_agent-new :
    (m : AgentsMap) (a : AgentRef) (key : String)
    → find_by_name m a.name ≡ none
    → find_by_id m a.id ≡ none
    → let r = insert_agent m a in
      (r.1 ≡ none)
      × (find_by_name r.0 key ≡ (if str_eq a.name key then some a else find_by_name m key))
      × (find_by_id r.0 key ≡ (if str_eq a.id key then some a else find_by_id m key))
      × (visited r.0 ≡ visited m ++ a ∷ [])
      × (size r.0 ≡ size m + 1)
insert_agent-new m a key n i =
    subst
      (λ (r : AgentsMap × Option Error).
        (r.1 ≡ none)
        × (find_by_name r.0 key ≡ (if str_eq a.name key then some a else find_by_name m key))
        × (find_by_id r.0 key ≡ (if str_eq a.id key then some a else find_by_id m key))
        × (visited r.0 ≡ visited m ++ a ∷ [])
        × (size r.0 ≡ size m + 1))
      (sym (insert_agent-eq m a n i))
      (
        refl,
        find_by_name-inserted m a key,
        find_by_id-inserted m a key,
        unfold visited in (values-inserted m a n i).0,
        size-inserted m a n,
      )
