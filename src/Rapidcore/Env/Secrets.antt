-- ===== src/Rapidcore/Env/Secrets.antt =====
-- internal/lambda/rapidcore/env/environment.go: the credentials of an init reach the runtime.
use lambda_runtime_init.Base.{◌≡◌, refl, ◌∙◌, Option, none, some, List, [], ◌∷◌, String, arith}
use lambda_runtime_init.Base.Dict.{lookup, lookup-insert}
use lambda_runtime_init.Rapidcore.Env.{
  Vars, Environment, has_key, new_environment, runtime_exec_env,
}
use lambda_runtime_init.Rapidcore.Env.Layers.{lookup-map_union}
use lambda_runtime_init.Rapidcore.Env.Laws.{
  Op, stores_init, step, run, IsValid, run-IsValid, run_new-IsValid,
}
use lambda_runtime_init.Rapidcore.Env.Exec.{
  ranked, NoInit, Holds, step-Holds, non_credential-credentials,
}

run-Holds :
    (key secret session : String) (e : Environment) (ops : List Op)
    → NoInit ops
    → Holds key secret session e
    → Holds key secret session (run e ops)
unfolding run
run-Holds key secret session e [] n h = h
run-Holds key secret session e (o ∷ ops) n h =
    let (h', n') = step-Holds key secret session e o ops n h in
    run-Holds key secret session (step e o) ops n' h'

init-Holds :
    (c : Vars) (handler key secret session name ver : String) (e : Environment)
    → Holds key secret session (step e (stores_init c handler key secret session name ver))
unfolding step
init-Holds c handler key secret session name ver e =
    rw (non_credential-credentials, step)
      (simp (lookup-insert), simp (lookup-insert), simp (lookup-insert))

exec-ranked :
    (e : Environment) (key : String) (env : Vars)
    → IsValid e
    → runtime_exec_env e ≡ some env
    → lookup key env ≡ ranked key e
unfolding runtime_exec_env
exec-ranked e key env (c, u, k, (r, _), (p, _)) h =
    let maps : List Vars =
      e.customer ∷ e.platform_unreserved ∷ e.credentials ∷ e.runtime ∷ e.platform ∷ [] in
    ground (arith, lookup-map_union key maps (c, (u, (k, (r, (p, tt))))))

-- A key that is neither the platform's nor the runtime's has the value of the credentials.
credential-first :
    (e : Environment) (key val : String)
    → lookup key e.platform ≡ none
    → lookup key e.runtime ≡ none
    → lookup key e.credentials ≡ some val
    → ranked key e ≡ some val
credential-first e key val p r c = ground arith

Holds-exec :
    (key secret session : String) (e : Environment) (env : Vars)
    → IsValid e
    → runtime_exec_env e ≡ some env
    → Holds key secret session e
    → (lookup "AWS_ACCESS_KEY_ID" env ≡ some key)
      × (lookup "AWS_SECRET_ACCESS_KEY" env ≡ some secret)
      × (lookup "AWS_SESSION_TOKEN" env ≡ some session)
unfolding has_key
Holds-exec key secret session e env (c, u, k, (r, rs), (p, ps)) h (a, b, d) =
    let v : IsValid e = (c, u, k, (r, rs), (p, ps)) in
    let has =
      λ (asked val : String) (w : lookup asked e.platform ≡ none)
          (x : lookup asked e.runtime ≡ none) (y : lookup asked e.credentials ≡ some val).
        exec-ranked e asked env v h ∙ credential-first e asked val w x y in
    (
      has "AWS_ACCESS_KEY_ID" key (ps "AWS_ACCESS_KEY_ID" refl) (rs "AWS_ACCESS_KEY_ID" refl) a,
      has "AWS_SECRET_ACCESS_KEY" secret (ps "AWS_SECRET_ACCESS_KEY" refl)
          (rs "AWS_SECRET_ACCESS_KEY" refl) b,
      has "AWS_SESSION_TOKEN" session (ps "AWS_SESSION_TOKEN" refl) (rs "AWS_SESSION_TOKEN" refl) d,
    )

-- Whatever the customer's variables, the flags and the environment of the process hold, and whatever
-- is called before an init and after it, other than a further one with credentials: the runtime is
-- started with the three credentials of that init.
pub runtime_exec_env-credentials :
    (os : String → Option String) (before after : List Op) (customer : Vars)
    (handler key secret session name ver : String) (env : Vars)
    → NoInit after
    → runtime_exec_env (
        run
          (step
            (run (new_environment os) before)
            (stores_init customer handler key secret session name ver))
          after)
      ≡ some env
    → (lookup "AWS_ACCESS_KEY_ID" env ≡ some key)
      × (lookup "AWS_SECRET_ACCESS_KEY" env ≡ some secret)
      × (lookup "AWS_SESSION_TOKEN" env ≡ some session)
unfolding run step
runtime_exec_env-credentials os before after customer handler key secret session name ver env n h =
    let e = run (new_environment os) before in
    let o = stores_init customer handler key secret session name ver in
    Holds-exec key secret session (run (step e o) after) env
      (run-IsValid e (o ∷ after) (run_new-IsValid os before)) h
      (run-Holds key secret session (step e o) after n
        (init-Holds customer handler key secret session name ver e))
