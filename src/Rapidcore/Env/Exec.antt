-- ===== src/Rapidcore/Env/Exec.antt =====
-- internal/lambda/rapidcore/env/environment.go: what a process that is started finds for a key.
use lambda_runtime_init.Base.{
  ◌≡◌, refl, ◌∙◌, true, false, Option, none, some, List, [], ◌∷◌, String, str_eq, arith,
  if◌then◌else◌,
}
use lambda_runtime_init.Base.Dict.{lookup, insert, lookup-insert}
use lambda_runtime_init.Rapidcore.Env.{
  Vars, Environment, new_environment, map_union, map_exclude, set_handler,
  store_non_credential_environment_variables_from_init, runtime_exec_env, excluded, agent_exec_env,
  merge_customer_environment_variables,
}
use lambda_runtime_init.Rapidcore.Env.Layers.{over, lookup-map_union, lookup-map_exclude}
use lambda_runtime_init.Rapidcore.Env.Laws.{
  Op, stores_runtime_api, sets_handler, sets_execution_env, sets_task_root, sets_runtime_dir,
  stores_metadata, stores_cli, stores_init, stores_caching, step, run, IsValid, run_new-IsValid,
}

-- The value of a key by rank: the platform's, then the runtime's, the credentials, the unreserved
-- ones of the platform, and the customer's last.
abbrev pub ranked : String → Environment → Option String
ranked key e = over (lookup key e.platform) (
    over (lookup key e.runtime) (
      over (lookup key e.credentials)
        (over (lookup key e.platform_unreserved) (lookup key e.customer))))

-- The same for an extension, which gets none of the runtime's and of the unreserved ones.
abbrev pub ranked_agent : String → Environment → Option String
ranked_agent key e =
    if excluded key
    then none
    else over (lookup key e.platform) (over (lookup key e.credentials) (lookup key e.customer))

runtime-ranked :
    (e : Environment) (key : String)
    → IsValid e
    → e.init_env_vars_set ≡ true
    → e.runtime_api_set ≡ true
    → (env : Vars) × (runtime_exec_env e ≡ some env) × (lookup key env ≡ ranked key e)
unfolding runtime_exec_env
runtime-ranked e key (c, u, k, (r, _), (p, _)) i a =
    let maps : List Vars =
      e.customer ∷ e.platform_unreserved ∷ e.credentials ∷ e.runtime ∷ e.platform ∷ [] in
    (
      map_union maps,
      ground arith,
      lookup-map_union key maps (c, (u, (k, (r, (p, tt))))) ∙ ground arith,
    )

agent-ranked :
    (e : Environment) (key : String)
    → IsValid e
    → e.init_env_vars_set ≡ true
    → e.runtime_api_set ≡ true
    → (env : Vars) × (agent_exec_env e ≡ some env) × (lookup key env ≡ ranked_agent key e)
unfolding agent_exec_env
agent-ranked e key (c, u, k, r, (p, _)) i a =
    let maps : List Vars = e.customer ∷ e.credentials ∷ e.platform ∷ [] in
    (
      map_exclude excluded (map_union maps),
      ground arith,
      lookup-map_exclude excluded key (map_union maps)
          ∙ ground (arith, lookup-map_union key maps (c, (k, (p, tt)))),
    )

module _ (os : String → Option String) (ops : List Op) (key : String) where
  -- After any history of calls that has set the init variables and the address of the API, the
  -- runtime is started, and finds for each key the value of the highest rank: the platform's, then
  -- the runtime's, the credentials, the unreserved ones of the platform, and the customer's last.
  pub runtime_exec_env-ranked :
      (run (new_environment os) ops).init_env_vars_set ≡ true
      → (run (new_environment os) ops).runtime_api_set ≡ true
      → (env : Vars) × (runtime_exec_env (run (new_environment os) ops) ≡ some env)
        × (lookup key env ≡ ranked key (run (new_environment os) ops))
  runtime_exec_env-ranked = runtime-ranked _ key (run_new-IsValid os ops)

  -- The same for an extension: none of the excluded keys, none of the runtime's variables.
  pub agent_exec_env-ranked :
      (run (new_environment os) ops).init_env_vars_set ≡ true
      → (run (new_environment os) ops).runtime_api_set ≡ true
      → (env : Vars) × (agent_exec_env (run (new_environment os) ops) ≡ some env)
        × (lookup key env ≡ ranked_agent key (run (new_environment os) ops))
  agent_exec_env-ranked = agent-ranked _ key (run_new-IsValid os ops)

-- A history with no further init that brings credentials.
abbrev pub NoInit : List Op → Type 0
NoInit [] = Unit {0}
NoInit (stores_init _ _ _ _ _ _ _ ∷ ops) = ⊥
NoInit (stores_caching _ _ _ _ _ _ ∷ ops) = NoInit ops
NoInit (stores_runtime_api _ ∷ ops) = NoInit ops
NoInit (sets_handler _ ∷ ops) = NoInit ops
NoInit (sets_execution_env _ ∷ ops) = NoInit ops
NoInit (sets_task_root _ ∷ ops) = NoInit ops
NoInit (sets_runtime_dir _ ∷ ops) = NoInit ops
NoInit (stores_metadata _ _ ∷ ops) = NoInit ops
NoInit (stores_cli _ ∷ ops) = NoInit ops

-- The credentials that an init brought, and that both flags of the environment stay set.
abbrev pub Holds : String → String → String → Environment → Type 0
Holds key secret session e =
    (lookup "AWS_ACCESS_KEY_ID" e.credentials ≡ some key)
    × (lookup "AWS_SECRET_ACCESS_KEY" e.credentials ≡ some secret)
    × (lookup "AWS_SESSION_TOKEN" e.credentials ≡ some session)

pub non_credential-credentials :
    (c : Vars) (handler name ver : String) (e : Environment)
    → (store_non_credential_environment_variables_from_init c handler name ver e).credentials
      ≡ e.credentials
unfolding store_non_credential_environment_variables_from_init merge_customer_environment_variables
    set_handler
non_credential-credentials c handler name ver e = ground arith

caching-credentials :
    (asked uri token : String) (m : Vars)
    → str_eq "AWS_CONTAINER_AUTHORIZATION_TOKEN" asked ≡ false
    → str_eq "AWS_CONTAINER_CREDENTIALS_FULL_URI" asked ≡ false
    → lookup asked (
        insert "AWS_CONTAINER_AUTHORIZATION_TOKEN" token
          (insert "AWS_CONTAINER_CREDENTIALS_FULL_URI" uri m))
      ≡ lookup asked m
caching-credentials asked uri token m p q = rw (lookup-insert, p, lookup-insert, q) refl

module _ (key secret session : String) where
  pub step-Holds :
      (e : Environment) (o : Op) (ops : List Op)
      → NoInit (o ∷ ops)
      → Holds key secret session e
      → Holds key secret session (step e o) × NoInit ops
  unfolding step
  step-Holds e (stores_runtime_api a) ops n h = (h, n)
  step-Holds e (sets_handler v) ops n h = (h, n)
  step-Holds e (sets_execution_env v) ops n h = (h, n)
  step-Holds e (sets_task_root v) ops n h = (h, n)
  step-Holds e (sets_runtime_dir v) ops n h = (h, n)
  step-Holds e (stores_metadata a t) ops n h = (h, n)
  step-Holds e (stores_cli vars) ops n h = (h, n)
  step-Holds e (stores_init c a b d x y z) ops n h = elim n [ ]
  step-Holds e (stores_caching uri c h name ver token) ops n (p, q, r) =
      rw (non_credential-credentials, step)
        (
          (
            caching-credentials "AWS_ACCESS_KEY_ID" uri token e.credentials refl refl ∙ p,
            caching-credentials "AWS_SECRET_ACCESS_KEY" uri token e.credentials refl refl ∙ q,
            caching-credentials "AWS_SESSION_TOKEN" uri token e.credentials refl refl ∙ r,
          ),
          n,
        )
