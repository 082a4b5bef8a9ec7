-- ===== src/Rapi/Extensions/Laws.antt =====
-- Which fatal error is kept of those that extensions report, and registrations once they are closed.
use lambda_runtime_init.Base.{
  ℕ, ◌≡◌, refl, ap, ◌∙◌, ◌⊎◌, inl, inr, Bool, true, false, Option, none, some, List, [], ◌∷◌,
  String, str_eq, if◌then◌else◌, Option-cases, Bool-cases, get_elem?,
}
use lambda_runtime_init.Core.Thread.{Outcome, returned, suspended}
use lambda_runtime_init.Core.AgentsMap.{AgentRef}
use lambda_runtime_init.Core.Registrations.Queries.{
  find_external_agent_by_id, find_internal_agent_by_id,
}
use lambda_runtime_init.Appctx.{
  load, load_first_fatal_error, store_first_fatal_error, absent, found, Loaded,
  first_fatal_error_key, fatal_error,
}
use lambda_runtime_init.Appctx.Laws.{store_first-stored, store_first-kept, loaded-of, absent-of}
use lambda_runtime_init.Fatalerror.{agent_init_error, agent_exit_error}
use lambda_runtime_init.Rapi.Session.{Rendered, accepted, Times}
use lambda_runtime_init.Rapi.Extensions.{
  Extensions, AgentCall, init_errors, exit_errors, with_agent, on_success, call_external,
  call_internal, serve_agent_init_error, serve_agent_exit_error, serve_agent_error, store_fatal,
  external, internal,
}

-- A request to report an error, with its header and the extension's ID.
pub data Report : Type 0 where
  init_report exit_report : String → Option String → Times → Report

abbrev pub reported : Report → List ℕ
reported (init_report x id t) = agent_init_error
reported (exit_report x id t) = agent_exit_error

unfoldable pub serve : Report → Extensions → Extensions × Rendered
unfolding serve_agent_init_error serve_agent_exit_error
serve (init_report x id t) e = serve_agent_init_error x id t e
serve (exit_report x id t) e = serve_agent_exit_error x id t e

unfoldable pub run : List Report → Extensions → Extensions
unfolding serve
run [] e = e
run (r ∷ rs) e = run rs (serve r e).0

abbrev is_accepted : Rendered → Bool
is_accepted accepted = true
is_accepted _ = false

-- The error of the first report that is answered with 202.
unfoldable pub first_accepted : List Report → Extensions → Option (List ℕ)
unfolding serve
first_accepted [] e = none
first_accepted (r ∷ rs) e =
    let later = first_accepted rs (serve r e).0 in
    if is_accepted (serve r e).1 then some (reported r) else later

-- A report that is accepted is stored unless another was; one that is refused stores nothing.
abbrev Stores : List ℕ → Extensions → Extensions × Rendered → Type 0
Stores err e (e', answer) =
    ((is_accepted answer ≡ true) × (e'.app ≡ store_first_fatal_error err e.app))
    ⊎ ((is_accepted answer ≡ false) × (e'.app ≡ e.app))

abbrev Keeps : Extensions → Option (Extensions × Outcome) → Type 0
Keeps e none = Unit {0}
Keeps e (some p) = p.0.app ≡ e.app

success-Stores :
    (err : List ℕ) (e : Extensions) (o : Option (Extensions × Outcome))
    → Keeps e o
    → Stores err e (on_success e o (store_fatal err))
success-Stores err e none h = inr (refl, refl)
success-Stores err e (some (e', returned none)) h = inl (refl, ap (store_first_fatal_error err) h)
success-Stores err e (some (e', returned (some x))) h = inr (refl, h)
success-Stores err e (some (e', suspended r)) h = inr (refl, h)

external-Keeps :
    (c : AgentCall) (t : Times) (a : AgentRef) (e : Extensions)
    → Keeps e (call_external (external c) t a e)
unfolding call_external
external-Keeps c t a e = elim (Option-cases (get_elem? e.memory.externals a.address)) [
  | inl h ↦ rw (call_external, h) tt
  | inr (agent, h) ↦ rw (call_external, h) refl
]

internal-Keeps :
    (c : AgentCall) (t : Times) (a : AgentRef) (e : Extensions)
    → Keeps e (call_internal (internal c) t a e)
unfolding call_internal
internal-Keeps c t a e = elim (Option-cases (get_elem? e.memory.internals a.address)) [
  | inl h ↦ rw (call_internal, h) tt
  | inr (agent, h) ↦ rw (call_internal, h) refl
]

with_agent-Stores :
    (err : List ℕ) (id : String) (c : AgentCall) (t : Times) (e : Extensions)
    → Stores err e (with_agent id c t (store_fatal err) e)
unfolding with_agent
with_agent-Stores err id c t e = elim (Option-cases (find_external_agent_by_id e.service id)) [
  | inr (a, h) ↦
      rw (with_agent, h)
        (success-Stores err e (call_external (external c) t a e) (external-Keeps c t a e))
  | inl h ↦ elim (Option-cases (find_internal_agent_by_id e.service id)) [
    | inr (a, k) ↦
        rw (with_agent, h, k)
          (success-Stores err e (call_internal (internal c) t a e) (internal-Keeps c t a e))
    | inl k ↦ rw (with_agent, h, k) (inr (refl, refl))
  ]
]

error-Stores :
    (c : String → AgentCall) (err : List ℕ) (x : String) (id : Option String) (t : Times)
    (e : Extensions)
    → Stores err e (serve_agent_error c err x id t e)
error-Stores c err x none t e = inr (refl, refl)
error-Stores c err x (some id) t e = elim (Bool-cases (str_eq x "")) [
  | inl h ↦ rw h (inr (refl, refl))
  | inr h ↦ rw h (with_agent-Stores err id (c x) t e)
]

serve-Stores : (r : Report) (e : Extensions) → Stores (reported r) e (serve r e)
unfolding serve
serve-Stores (init_report x id t) e = error-Stores init_errors agent_init_error x id t e
serve-Stores (exit_report x id t) e = error-Stores exit_errors agent_exit_error x id t e

run-kept :
    (rs : List Report) (e : Extensions) (x : List ℕ)
    → load first_fatal_error_key e.app ≡ some (fatal_error x)
    → (run rs e).app ≡ e.app
unfolding run
run-kept [] e x h = refl
run-kept (r ∷ rs) e x h =
    let e' = (serve r e).0 in
    let same : e'.app ≡ e.app = elim (serve-Stores r e) [
      | inl (_, stored) ↦ stored ∙ store_first-kept (reported r) x e.app h
      | inr (_, kept) ↦ kept
    ] in
    run-kept rs e' x (ap (load first_fatal_error_key) same ∙ h) ∙ same

abbrev pub loaded : Option (List ℕ) → Loaded (List ℕ)
loaded none = absent
loaded (some x) = found x

-- Whatever extensions report, in any order, to a context that has no fatal error yet: the fatal error
-- that it has at the end is that of the first report that was answered with 202, and none if no
-- report was.
pub run-first_accepted :
    (rs : List Report) (e : Extensions)
    → load first_fatal_error_key e.app ≡ none
    → load_first_fatal_error (run rs e).app ≡ loaded (first_accepted rs e)
unfolding run first_accepted
run-first_accepted [] e h = absent-of e.app h
run-first_accepted (r ∷ rs) e h = elim (serve-Stores r e) [
  | inl (yes', stored) ↦
      let e' = (serve r e).0 in
      let there =
        ap (load first_fatal_error_key) stored ∙ store_first-stored (reported r) e.app h in
      rw (first_accepted, yes')
        (ap load_first_fatal_error (run-kept rs e' (reported r) there)
          ∙ loaded-of (reported r) e'.app there)
  | inr (no', kept) ↦
      rw (first_accepted, no')
        (run-first_accepted rs (serve r e).0 (ap (load first_fatal_error_key) kept ∙ h))
]
