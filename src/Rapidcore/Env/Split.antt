-- ===== src/Rapidcore/Env/Split.antt =====
-- internal/lambda/rapidcore/env/util.go and customer.go: entries of the process's environment.
use Prim.Native.Char.{Char, code}
use Prim.Native.String.{◌++◌ as append}
use Prim.Native.String.append.{nil, cons}
use lambda_runtime_init.Base.{
  ◌≡◌, refl, true, false, some, List, [], ◌∷◌, String, str_eq, if◌then◌else◌, ◌==◌, Option-cases,
  Bool-cases, inl, inr,
}
use lambda_runtime_init.Base.Dict.{lookup, insert, lookup-insert}
use text.Mathlib.TextEquality.{eq_iff}
use lambda_runtime_init.Rapidcore.Env.{
  Vars, split_environment_variable, is_customer, collect_customer, customer_environment_variables,
}

abbrev pub NoEquals : String → Type 0
NoEquals String.[] = Unit {0}
NoEquals (String.◌∷◌ c s) = ((code c == 61) ≡ false) × NoEquals s

nil-append : (t : String) → append "" t ≡ t
nil-append t = λ i. nil t i

cons-append : (c : Char) (s t : String) → append (String.◌∷◌ c s) t ≡ String.◌∷◌ c (append s t)
cons-append c s t = λ i. cons c s t i

-- An entry splits at its first `=`: the value may have more of them.
pub split-append :
    (key val : String)
    → NoEquals key
    → split_environment_variable (append key (append "=" val)) ≡ some (key, val)
unfolding split_environment_variable
split-append String.[] val n = rw (nil-append, cons-append, nil-append) refl
split-append (String.◌∷◌ c key) val (h, n) =
    rw (cons-append c key (append "=" val))
      (rw (split_environment_variable, h, split-append key val n) refl)

abbrev IsCustomers : Vars → Type 0
IsCustomers env = (k v : String) → lookup k env ≡ some v → is_customer k ≡ true

insert-customer :
    (env : Vars) (key val : String)
    → is_customer key ≡ true
    → IsCustomers env
    → IsCustomers (insert key val env)
insert-customer env key val customer ok k v found =
    let here : (if str_eq key k then some val else lookup k env) ≡ some v =
      rw lookup-insert at found in
    elim (Bool-cases (str_eq key k)) [
      | inl same ↦ rw (← (eq_iff key k).0 same) customer
      | inr other ↦ ok k v (rw other at here)
    ]

collect-customer :
    (environ : List String) (env : Vars) (key val : String)
    → IsCustomers env
    → lookup key (collect_customer environ env) ≡ some val
    → is_customer key ≡ true
unfolding collect_customer
collect-customer [] env key val ok h = ok key val h
collect-customer (keyval ∷ more) env key val ok h =
    elim (Option-cases (split_environment_variable keyval)) [
      | inl skipped ↦ collect-customer more env key val ok (rw (collect_customer, skipped) at h)
      | inr (kv, split) ↦ elim (Bool-cases (is_customer kv.0)) [
        | inl customer ↦
            collect-customer more (insert kv.0 kv.1 env) key val
              (insert-customer env kv.0 kv.1 customer ok)
              (rw (collect_customer, split, customer) at h)
        | inr reserved ↦
            collect-customer more env key val ok (rw (collect_customer, split, reserved) at h)
      ]
    ]

-- None of the customer's variables is internal, reserved or a credential.
pub customer-is_customer :
    (environ : List String) (key val : String)
    → lookup key (customer_environment_variables environ) ≡ some val
    → is_customer key ≡ true
unfolding customer_environment_variables lookup
customer-is_customer environ key val h = collect-customer environ [] key val (λ k v none'. cc) h
