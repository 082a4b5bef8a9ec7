-- ===== src/Rapidcore/Env/Laws.antt =====
-- internal/lambda/rapidcore/env/environment.go: what the runtime and the extensions find in their
-- environment, after any history of calls.
use lambda_runtime_init.Base.{
  ◌≡◌, refl, ◌∙◌, true, false, Option, none, List, [], ◌∷◌, String, str_eq, arith, if◌then◌else◌,
  Bool-cases, inl, inr,
}
use lambda_runtime_init.Base.Dict.{lookup, insert, lookup-insert}
use lambda_runtime_init.Rapidcore.Env.{
  Vars, Environment, has_key, predefined_platform_env_var_keys, predefined_runtime_env_var_keys,
  predefined_platform_unreserved_env_var_keys, set_unless_empty, lookup_env, new_environment,
  store_runtime_api_environment_variable, store_metadata_api_environment_variables, set_handler,
  set_execution_env, set_task_root, set_runtime_dir, merge_customer_environment_variables,
  store_environment_variables_from_cli_options,
  store_non_credential_environment_variables_from_init, store_environment_variables_from_init,
  store_environment_variables_from_init_for_init_caching,
}
use lambda_runtime_init.Rapidcore.Env.Layers.{
  Distinct, insert-Distinct, lookup_env-Distinct, lookup-lookup_env, map_union-Distinct,
}
use text.Mathlib.TextEquality.{eq_iff}

-- The calls that change an environment.
pub data Op : Type 0 where
  stores_runtime_api sets_handler sets_execution_env sets_task_root sets_runtime_dir : String → Op
  stores_metadata : String → String → Op
  stores_cli : Vars → Op
  stores_init : Vars → String → String → String → String → String → String → Op
  stores_caching : String → Vars → String → String → String → String → Op

unfoldable pub step : Environment → Op → Environment
unfolding store_runtime_api_environment_variable set_handler set_execution_env set_task_root
    set_runtime_dir store_metadata_api_environment_variables
    store_environment_variables_from_cli_options store_environment_variables_from_init
    store_environment_variables_from_init_for_init_caching
step e (stores_runtime_api a) = store_runtime_api_environment_variable a e
step e (sets_handler v) = set_handler v e
step e (sets_execution_env v) = set_execution_env v e
step e (sets_task_root v) = set_task_root v e
step e (sets_runtime_dir v) = set_runtime_dir v e
step e (stores_metadata a t) = store_metadata_api_environment_variables a t e
step e (stores_cli vars) = store_environment_variables_from_cli_options vars e
step e (stores_init c h key secret session name ver) =
    store_environment_variables_from_init c h key secret session name ver e
step e (stores_caching uri c h name ver token) =
    store_environment_variables_from_init_for_init_caching uri c h name ver token e

unfoldable pub run : Environment → List Op → Environment
run e [] = e
run e (o ∷ os) = run (step e o) os

-- A map with keys of a fixed list only, each once.
abbrev pub Within : List String → Vars → Type 0
Within keys m = Distinct m × ((key : String) → has_key keys key ≡ false → lookup key m ≡ none)

abbrev pub IsValid : Environment → Type 0
IsValid e =
    Distinct e.customer
    × Distinct e.platform_unreserved
    × Distinct e.credentials
    × Within predefined_runtime_env_var_keys e.runtime
    × Within predefined_platform_env_var_keys e.platform

lookup_env-Within :
    (os : String → Option String) (keys : List String) → Within keys (lookup_env os keys)
lookup_env-Within os keys = (lookup_env-Distinct os keys, lookup-lookup_env os keys)

insert-Within :
    (keys : List String) (key val : String) (m : Vars)
    → has_key keys key ≡ true
    → Within keys m
    → Within keys (insert key val m)
insert-Within keys key val m known (d, w) = (
  insert-Distinct key val m d,
  λ asked unknown. elim (Bool-cases (str_eq key asked)) [
    | inl same ↦
        let clash : has_key keys asked ≡ true = rw (← (eq_iff key asked).0 same) known in
        absurd (cc)
    | inr other ↦ lookup-insert key asked val m ∙ ground (arith, other, w asked)
  ],
)

new-IsValid : (os : String → Option String) → IsValid (new_environment os)
unfolding new_environment
new-IsValid os = (
  tt,
  lookup_env-Distinct os predefined_platform_unreserved_env_var_keys,
  tt,
  lookup_env-Within os predefined_runtime_env_var_keys,
  lookup_env-Within os predefined_platform_env_var_keys,
)

abbrev IsPlatform : Vars → Type 0
IsPlatform = Within predefined_platform_env_var_keys

abbrev IsRuntime : Vars → Type 0
IsRuntime = Within predefined_runtime_env_var_keys

set_unless_empty-IsPlatform :
    (key val : String) (m : Vars)
    → has_key predefined_platform_env_var_keys key ≡ true
    → IsPlatform m
    → IsPlatform (set_unless_empty key val m)
set_unless_empty-IsPlatform key val m known w = elim (Bool-cases (str_eq val "")) [
  | inl empty ↦ rw empty w
  | inr given ↦ rw given (insert-Within predefined_platform_env_var_keys key val m known w)
]

set-IsRuntime :
    (key val : String) (m : Vars)
    → has_key predefined_runtime_env_var_keys key ≡ true
    → IsRuntime m
    → IsRuntime (insert key val m)
set-IsRuntime = insert-Within predefined_runtime_env_var_keys

named-runtime :
    (handler : String) (e : Environment)
    → IsRuntime e.runtime
    → IsRuntime (if str_eq handler "" then e else set_handler handler e).runtime
unfolding set_handler has_key
named-runtime handler e w = elim (Bool-cases (str_eq handler "")) [
  | inl empty ↦ rw empty w
  | inr given ↦ rw given (set-IsRuntime "_HANDLER" handler e.runtime refl w)
]

named-platform :
    (handler : String) (e : Environment)
    → (if str_eq handler "" then e else set_handler handler e).platform ≡ e.platform
unfolding set_handler
named-platform handler e = ground arith

named-kept :
    (handler : String) (e : Environment)
    → ((if str_eq handler "" then e else set_handler handler e).platform_unreserved
        ≡ e.platform_unreserved)
      × ((if str_eq handler "" then e else set_handler handler e).credentials ≡ e.credentials)
unfolding set_handler
named-kept handler e = ground arith

non_credential-IsValid :
    (c : Vars) (handler name ver : String) (e : Environment)
    → IsValid e
    → IsValid (store_non_credential_environment_variables_from_init c handler name ver e)
unfolding store_non_credential_environment_variables_from_init merge_customer_environment_variables
    has_key
non_credential-IsValid c handler name ver e (_, u, k, r, p) =
    let (unreserved, credentials) = named-kept handler e in
    (
      map_union-Distinct
          ((if str_eq handler "" then e else set_handler handler e).customer ∷ c ∷ []),
      rw unreserved u,
      rw credentials k,
      named-runtime handler e r,
      set_unless_empty-IsPlatform "AWS_LAMBDA_FUNCTION_VERSION" ver _ refl (
          set_unless_empty-IsPlatform "AWS_LAMBDA_FUNCTION_NAME" name _ refl
            (rw (named-platform handler e) p)),
    )

step-IsValid : (e : Environment) (o : Op) → IsValid e → IsValid (step e o)
unfolding step merge_customer_environment_variables has_key
step-IsValid e (stores_runtime_api a) (c, u, k, r, p) = (
  c,
  u,
  k,
  r,
  insert-Within predefined_platform_env_var_keys "AWS_LAMBDA_RUNTIME_API" a e.platform refl p,
)
step-IsValid e (sets_handler v) (c, u, k, r, p) =
    (c, u, k, set-IsRuntime "_HANDLER" v e.runtime refl r, p)
step-IsValid e (sets_execution_env v) (c, u, k, r, p) =
    (c, u, k, set-IsRuntime "AWS_EXECUTION_ENV" v e.runtime refl r, p)
step-IsValid e (sets_task_root v) (c, u, k, r, p) =
    (c, u, k, set-IsRuntime "LAMBDA_TASK_ROOT" v e.runtime refl r, p)
step-IsValid e (sets_runtime_dir v) (c, u, k, r, p) =
    (c, u, k, set-IsRuntime "LAMBDA_RUNTIME_DIR" v e.runtime refl r, p)
step-IsValid e (stores_metadata a t) (c, u, k, r, p) =
    let keys = predefined_platform_env_var_keys in
    let key : String = "AWS_LAMBDA_METADATA_API" in
    let inner = insert-Within keys key a e.platform refl p in
    (
      c,
      u,
      k,
      r,
      insert-Within keys "AWS_LAMBDA_METADATA_TOKEN" t (insert key a e.platform) refl inner,
    )
step-IsValid e (stores_cli vars) (c, u, k, r, p) =
    (map_union-Distinct (e.customer ∷ vars ∷ []), u, k, r, p)
step-IsValid e (stores_init c h key secret session name ver) (d, u, k, r, p) =
    non_credential-IsValid c h name ver _ (
      d,
      u,
      insert-Distinct "AWS_SESSION_TOKEN" session _ (
          insert-Distinct "AWS_SECRET_ACCESS_KEY" secret _
            (insert-Distinct "AWS_ACCESS_KEY_ID" key e.credentials k)),
      r,
      p,
    )
step-IsValid e (stores_caching uri c h name ver token) (d, u, k, r, p) =
    non_credential-IsValid c h name ver _ (
      d,
      u,
      insert-Distinct "AWS_CONTAINER_AUTHORIZATION_TOKEN" token _
          (insert-Distinct "AWS_CONTAINER_CREDENTIALS_FULL_URI" uri e.credentials k),
      r,
      p,
    )

pub run-IsValid : (e : Environment) (ops : List Op) → IsValid e → IsValid (run e ops)
unfolding run
run-IsValid e [] v = v
run-IsValid e (o ∷ ops) v = run-IsValid (step e o) ops (step-IsValid e o v)

pub run_new-IsValid :
    (os : String → Option String) (ops : List Op) → IsValid (run (new_environment os) ops)
run_new-IsValid os ops = run-IsValid (new_environment os) ops (new-IsValid os)
