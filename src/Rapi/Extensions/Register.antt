-- ===== src/Rapi/Extensions/Register.antt =====
-- What a registration that is answered with 200 leaves behind.
use lambda_runtime_init.Base.{
  ℕ, ◌≡◌, ◌≢◌, refl, sym, subst, ap, ◌∙◌, ◌⊎◌, inl, inr, Option, some, List, String, str_eq, arith,
  Option-cases, Bool-cases, get_elem?, length,
}
use lambda_runtime_init.Core.Error.{Error}
use lambda_runtime_init.Core.Agent.{Event}
use lambda_runtime_init.Core.ExternalAgent.{validate_external_agent_event}
use lambda_runtime_init.Core.InternalAgent.{new_internal_agent, validate_internal_agent_event}
use lambda_runtime_init.Core.AgentsMap.{AgentRef}
use lambda_runtime_init.Core.AgentsMap.Laws.{IsConsistent}
use lambda_runtime_init.Core.Registrations.{
  Memory, RegistrationService, Created, created, failed, create_internal_agent,
}
use lambda_runtime_init.Core.Registrations.Queries.{
  find_external_agent_by_name, find_internal_agent_by_name,
}
use lambda_runtime_init.Rapi.Session.{event, forbidden, Times}
use lambda_runtime_init.Rapi.Extensions.Registration.{
  register_external_agent, register_internal_agent, serve_agent_register, parse_register,
  RegisterBody, all_valid, after_creation, creation_error,
}
use lambda_runtime_init.Rapi.Extensions.{Extensions}
use lambda_runtime_init.Rapi.Extensions.Called.{
  ExternallyRegistered, InternallyRegistered, add_internal-found, get_elem-append, internal_answer,
  external-Registered, internal-Registered,
}

-- The reference that `CreateInternalAgent` makes.
abbrev new_ref : String → String → Memory → AgentRef
new_ref name id h = record { address = length h.internals; name = name; id = id }

create-found :
    (name id : String) (now : ℕ) (h : Memory) (s : RegistrationService) (b : AgentRef)
    → (create_internal_agent name id now h s).2 ≡ created b
    → (b ≡ new_ref name id h)
      × (find_internal_agent_by_name (create_internal_agent name id now h s).1 name
          ≡ some (new_ref name id h))
      × (get_elem? (create_internal_agent name id now h s).0.internals (length h.internals)
          ≡ some (new_internal_agent name id now))
unfolding create_internal_agent find_internal_agent_by_name
create-found name id now h s b c =
    let (same, there) = add_internal-found (new_ref name id h) b s c in
    (same, there, get_elem-append h.internals (new_internal_agent name id now))

creation-differs : (x : Error) → creation_error x ≢ event
creation-differs x = ground arith

created-Registered :
    (name id : String) (events : List Event) (t : Times) (e : Extensions)
    (r : Memory × RegistrationService × Created)
    → create_internal_agent name id t.first e.memory e.service ≡ r
    → (after_creation events t e r).1 ≡ event
    → InternallyRegistered name (after_creation events t e r).0
created-Registered name id events t e (m, s, failed x) c h = absurd (creation-differs x h)
created-Registered name id events t e (m, s, created a) c h =
    let p : Memory × RegistrationService × Created =
      create_internal_agent name id t.first e.memory e.service in
    let (same, there, placed) =
      create-found name id t.first e.memory e.service a (ap (λ r. r.2) c) in
    let t' : Times = record { first = t.second; second = t.third; third = t.third } in
    let e' : Extensions = record e { memory = m; service = s } in
    let address : a.address ≡ length e.memory.internals = ap (λ (x : AgentRef). x.address) same in
    let named : a.name ≡ name = ap (λ (x : AgentRef). x.name) same in
    let k : get_elem? m.internals a.address ≡ some (new_internal_agent name id t.first) =
      ap (get_elem? m.internals) address
      ∙ sym (
          ap
            (λ (r : Memory × RegistrationService × Created).
              get_elem? r.0.internals (length e.memory.internals))
            c)
      ∙ placed in
    let f : find_internal_agent_by_name s a.name ≡ some a =
      ap (find_internal_agent_by_name s) named
      ∙ sym (
          ap (λ (r : Memory × RegistrationService × Created). find_internal_agent_by_name r.1 name)
            c)
      ∙ there
      ∙ ap some (sym same) in
    subst (λ n. InternallyRegistered n (internal_answer a events t' e').0) named
      (internal-Registered a events t' e' (new_internal_agent name id t.first) k f h)

forbidden-differs : {x : String} → forbidden x ≢ event
forbidden-differs h = cc

external_agent-Registered :
    (a : AgentRef) (events : List Event) (t : Times) (e : Extensions)
    → find_external_agent_by_name e.service a.name ≡ some a
    → (register_external_agent a events t e).1 ≡ event
    → ExternallyRegistered a.name (register_external_agent a events t e).0
unfolding register_external_agent
external_agent-Registered a events t e f h =
    elim (Bool-cases (all_valid validate_external_agent_event events)) [
      | inl v ↦
          rw (register_external_agent, v)
            (external-Registered a events t e f (rw (register_external_agent, v) at h))
      | inr v ↦ absurd (forbidden-differs (rw (register_external_agent, v) at h))
    ]

internal_agent-Registered :
    (name id : String) (events : List Event) (t : Times) (e : Extensions)
    → (register_internal_agent name id events t e).1 ≡ event
    → InternallyRegistered name (register_internal_agent name id events t e).0
unfolding register_internal_agent
internal_agent-Registered name id events t e h =
    elim (Bool-cases (all_valid validate_internal_agent_event events)) [
      | inl v ↦
          rw (register_internal_agent, v)
            (created-Registered name id events t e
              (create_internal_agent name id t.first e.memory e.service) refl
              (rw (register_internal_agent, v) at h))
      | inr v ↦ absurd (forbidden-differs (rw (register_internal_agent, v) at h))
    ]

by_its_name :
    (s : RegistrationService) (name : String) (a : AgentRef)
    → IsConsistent s.external_agents
    → find_external_agent_by_name s name ≡ some a
    → a.name ≡ name
unfolding find_external_agent_by_name
by_its_name s name a c f = (c.by_name_sound name a f).0

-- A registration that is answered with 200, in a service that finds external agents under their own
-- names: the service finds an agent by the name that was given, external or internal, and it is
-- in the state `Registered`.
pub serve_agent_register-Registered :
    (name id : String) (body : Option RegisterBody) (t : Times) (e : Extensions)
    → IsConsistent e.service.external_agents
    → (serve_agent_register name id body t e).1 ≡ event
    → ExternallyRegistered name (serve_agent_register name id body t e).0
      ⊎ InternallyRegistered name (serve_agent_register name id body t e).0
unfolding serve_agent_register
serve_agent_register-Registered name id body t e c h = elim (Bool-cases (str_eq name "")) [
  | inl y ↦ absurd (forbidden-differs (rw (serve_agent_register, y) at h))
  | inr y ↦ elim (Option-cases (parse_register body)) [
    | inl n ↦ absurd (forbidden-differs (rw (serve_agent_register, y, n) at h))
    | inr (events, n) ↦ elim (Option-cases (find_external_agent_by_name e.service name)) [
      | inl f ↦ inr (
          rw (serve_agent_register, y, n, f)
            (internal_agent-Registered name id events t e
              (rw (serve_agent_register, y, n, f) at h)))
      | inr (a, f) ↦
          let named : a.name ≡ name = by_its_name e.service name a c f in
          inl (
            rw (serve_agent_register, y, n, f)
              (subst (λ x. ExternallyRegistered x (register_external_agent a events t e).0) named
                (external_agent-Registered a events t e
                  (ap (find_external_agent_by_name e.service) named ∙ f)
                  (rw (serve_agent_register, y, n, f) at h))))
    ]
  ]
]
