-- ===== src/Rapi/Extensions/Called.antt =====
-- What a registration's call of an agent leaves behind.
use lambda_runtime_init.Core.InternalAgent
use lambda_runtime_init.Core.ExternalAgent
use lambda_runtime_init.Base.{
  ℕ, zero, suc, ◌≡◌, ◌≢◌, refl, sym, subst, ap, ◌∙◌, inl, inr, Bool, false, none, some, List, [],
  ◌∷◌, ◌++◌, String, arith, Option-cases, get_elem?, length,
}
use text.Mathlib.TextEquality.{eq_iff}
use lambda_runtime_init.Core.Error.{Error}
use lambda_runtime_init.Core.Thread.{Object, Outcome, returned, suspended, Resume}
use lambda_runtime_init.Core.Agent.{Event}
use lambda_runtime_init.Core.ExternalAgent.{
  ExternalAgent, ExternalAgentState, validate_external_agent_event,
}
use lambda_runtime_init.Core.ExternalAgent.Methods as External
use lambda_runtime_init.Core.InternalAgent.{
  InternalAgent, new_internal_agent, validate_internal_agent_event,
}
use lambda_runtime_init.Core.InternalAgent.Methods as Internal
use lambda_runtime_init.Core.AgentsMap.{AgentRef, AgentsMap, insert_agent, find_by_name, find_by_id}
use lambda_runtime_init.Core.AgentsMap.Laws.{insert_agent-new}
use lambda_runtime_init.Core.Registrations.{RegistrationService, created, add_internal}
use lambda_runtime_init.Core.Registrations.Queries.{
  find_external_agent_by_name, find_internal_agent_by_name,
}
use lambda_runtime_init.Rapi.Session.{Rendered, event, panicked, blocked, Times}
use lambda_runtime_init.Rapi.Extensions.Registration.{registered_answer}
use lambda_runtime_init.Rapi.Extensions.{
  Extensions, call_external, call_internal, set_elem, saved_external, saved_internal,
  invalid_extension_state, on_success,
}

get_elem-set :
    {A : Type 0} (xs : List A) (n : ℕ) (x y : A)
    → get_elem? xs n ≡ some x
    → get_elem? (set_elem xs n y) n ≡ some y
get_elem-set [] n x y h = cc
get_elem-set (z ∷ xs) zero x y h = refl
get_elem-set (z ∷ xs) (suc n) x y h = get_elem-set xs n x y h

-- The registration of an agent by its name, found by the service and in its state.
abbrev pub ExternallyRegistered : String → Extensions → Type 0
ExternallyRegistered name e =
    (a : AgentRef) × (agent : ExternalAgent) × (find_external_agent_by_name e.service name ≡ some a)
    × (get_elem? e.memory.externals a.address ≡ some agent)
    × (agent.current_state ≡ ExternalAgent.registered)

abbrev pub InternallyRegistered : String → Extensions → Type 0
InternallyRegistered name e =
    (a : AgentRef) × (agent : InternalAgent) × (find_internal_agent_by_name e.service name ≡ some a)
    × (get_elem? e.memory.internals a.address ≡ some agent)
    × (agent.current_state ≡ InternalAgent.registered)

external-registers :
    (p : Error → Bool) (es : List Event) (now later : ℕ) (o : Object ExternalAgent)
    → (External.call p (External.registers es) now later o).1 ≡ returned none
    → (External.call p (External.registers es) now later o).0.self.current_state
      ≡ ExternalAgent.registered
unfolding External.call
external-registers p es now later o h = ground arith

internal-registers :
    (es : List Event) (now later : ℕ) (o : Object InternalAgent)
    → (Internal.call (Internal.registers es) now later o).1 ≡ returned none
    → (Internal.call (Internal.registers es) now later o).0.self.current_state
      ≡ InternalAgent.registered
unfolding Internal.call
internal-registers es now later o h = ground arith

refused-differs : invalid_extension_state ≢ event
refused-differs h = cc

blocked-differs : {r : Resume} → blocked r ≢ event
blocked-differs h = cc

panicked-differs : panicked ≢ event
panicked-differs h = cc

some-none : {e : Error} → some e ≢ none
some-none h = cc

insert_agent-found :
    (m : AgentsMap) (a : AgentRef)
    → (insert_agent m a).1 ≡ none
    → find_by_name (insert_agent m a).0 a.name ≡ some a
unfolding insert_agent
insert_agent-found m a h = elim (Option-cases (find_by_name m a.name)) [
  | inr (x, e) ↦ absurd (some-none (rw (insert_agent, e) at h))
  | inl n ↦ elim (Option-cases (find_by_id m a.id)) [
    | inr (x, e) ↦ absurd (some-none (rw (insert_agent, n, e) at h))
    | inl i ↦
        let (_, found', _, _, _) = insert_agent-new m a a.name n i in
        ground (arith, found', eq_iff a.name a.name)
  ]
]

pub add_internal-found :
    (a b : AgentRef) (s : RegistrationService)
    → (add_internal a s).1 ≡ created b
    → (b ≡ a) × (find_by_name (add_internal a s).0.internal_agents a.name ≡ some a)
unfolding add_internal
add_internal-found a b s h = ground (arith, insert_agent-found s.internal_agents a)

pub get_elem-append :
    {A : Type 0} (xs : List A) (x : A) → get_elem? (xs ++ x ∷ []) (length xs) ≡ some x
get_elem-append [] x = refl
get_elem-append (y ∷ xs) x = get_elem-append xs x

-- An answer of 200 is one to a method that returned nil.
answered-event :
    (e e' : Extensions) (out : Outcome)
    → (on_success e (some (e', out)) registered_answer).1 ≡ event
    → (out ≡ returned none) × ((on_success e (some (e', out)) registered_answer).0 ≡ e')
answered-event e e' (returned none) h = (refl, refl)
answered-event e e' (returned (some x)) h = absurd (refused-differs h)
answered-event e e' (suspended r) h = absurd (blocked-differs h)

module _ (a : AgentRef) (events : List Event) (t : Times) (e : Extensions) where
  abbrev external_answer : Extensions × Rendered
  external_answer = on_success e (call_external (External.registers events) t a e) registered_answer

  abbrev pub internal_answer : Extensions × Rendered
  internal_answer = on_success e (call_internal (Internal.registers events) t a e) registered_answer

  pub external-Registered :
      find_external_agent_by_name e.service a.name ≡ some a
      → external_answer.1 ≡ event
      → ExternallyRegistered a.name external_answer.0
  unfolding call_external find_external_agent_by_name
  external-Registered f h = elim (Option-cases (get_elem? e.memory.externals a.address)) [
    | inl none' ↦ absurd (panicked-differs (rw (call_external, none') at h))
    | inr (agent, k) ↦
        let o : Object ExternalAgent = record {
          self = agent;
          init_flow = e.service.init_flow;
          invoke_flow = e.service.invoke_flow;
        } in
        let q : Object ExternalAgent × Outcome =
          External.call (λ _. false) (External.registers events) t.first t.second o in
        let saved : Extensions × Outcome = saved_external a.address e q in
        let same : external_answer ≡ on_success e (some saved) registered_answer =
          (rw (call_external, k) refl) in
        let (out, there) = answered-event e saved.0 saved.1 (sym (ap (λ p. p.1) same) ∙ h) in
        subst (ExternallyRegistered a.name) (sym (ap (λ p. p.0) same ∙ there)) (
          a,
          q.0.self,
          f,
          get_elem-set e.memory.externals a.address agent q.0.self k,
          external-registers (λ _. false) events t.first t.second o out,
        )
  ]

  pub internal-Registered :
      (agent : InternalAgent)
      → get_elem? e.memory.internals a.address ≡ some agent
      → find_internal_agent_by_name e.service a.name ≡ some a
      → internal_answer.1 ≡ event
      → InternallyRegistered a.name internal_answer.0
  unfolding call_internal find_internal_agent_by_name
  internal-Registered agent k f h =
      let o : Object InternalAgent = record {
        self = agent;
        init_flow = e.service.init_flow;
        invoke_flow = e.service.invoke_flow;
      } in
      let q : Object InternalAgent × Outcome =
        Internal.call (Internal.registers events) t.first t.second o in
      let saved : Extensions × Outcome = saved_internal a.address e q in
      let same : internal_answer ≡ on_success e (some saved) registered_answer =
        (rw (call_internal, k) refl) in
      let (out, there) = answered-event e saved.0 saved.1 (sym (ap (λ p. p.1) same) ∙ h) in
      subst (InternallyRegistered a.name) (sym (ap (λ p. p.0) same ∙ there)) (
        a,
        q.0.self,
        f,
        get_elem-set e.memory.internals a.address agent q.0.self k,
        internal-registers events t.first t.second o out,
      )
