-- ===== src/Tests/Env.antt =====
-- Concrete inputs for internal/lambda/rapidcore/env.
use lambda_runtime_init.Base.{◌≡◌, refl, true, Option, none, some, List, [], ◌∷◌, String}
use lambda_runtime_init.Base.Dict.{lookup}
use lambda_runtime_init.Rapidcore.Env.{
  Vars, Environment, new_environment, runtime_exec_env, split_environment_variable,
  customer_environment_variables,
}
use lambda_runtime_init.Rapidcore.Env.Laws.{Op, stores_runtime_api, stores_init, step, run}
use lambda_runtime_init.Rapidcore.Env.Exec.{ranked, runtime_exec_env-ranked}
use lambda_runtime_init.Rapidcore.Env.Secrets.{runtime_exec_env-credentials}

abbrev unset : String → Option String
unset key = none

-- A customer who sets a secret, a reserved variable and one of its own.
abbrev customer : Vars
customer = ("AWS_SECRET_ACCESS_KEY", "mine") ∷ ("_HANDLER", "h2") ∷ ("MODE", "fast") ∷ []

abbrev init : Op
init = stores_init customer "h" "k" "s" "t" "f" "1"

abbrev ops : List Op
ops = stores_runtime_api "127.0.0.1:9001" ∷ init ∷ []

abbrev env : Environment
env = run (new_environment unset) ops

api_set : env.runtime_api_set ≡ true
unfolding run step new_environment
api_set = refl

init_set : env.init_env_vars_set ≡ true
unfolding run step new_environment
init_set = refl

runtime_exec_env-ranked_example :
    (found : Vars) × (runtime_exec_env env ≡ some found)
    × (lookup "_HANDLER" found ≡ ranked "_HANDLER" env)
runtime_exec_env-ranked_example = runtime_exec_env-ranked unset ops "_HANDLER" init_set api_set

handler : ranked "_HANDLER" env ≡ some "h"
unfolding run step new_environment lookup
handler = refl

mode : ranked "MODE" env ≡ some "fast"
unfolding run step new_environment lookup
mode = refl

-- What the runtime is started with.
abbrev started : Vars
started =
    ("AWS_SECRET_ACCESS_KEY", "s")
    ∷ ("_HANDLER", "h")
    ∷ ("MODE", "fast")
    ∷ ("AWS_ACCESS_KEY_ID", "k")
    ∷ ("AWS_SESSION_TOKEN", "t")
    ∷ ("AWS_LAMBDA_RUNTIME_API", "127.0.0.1:9001")
    ∷ ("AWS_LAMBDA_FUNCTION_NAME", "f")
    ∷ ("AWS_LAMBDA_FUNCTION_VERSION", "1")
    ∷ []

exec : runtime_exec_env env ≡ some started
unfolding run step new_environment runtime_exec_env
exec = refl

exec_after :
    runtime_exec_env
      (run (step (run (new_environment unset) (stores_runtime_api "127.0.0.1:9001" ∷ [])) init) [])
    ≡ some started
unfolding run step new_environment runtime_exec_env
exec_after = refl

runtime_exec_env-credentials_example :
    (lookup "AWS_ACCESS_KEY_ID" started ≡ some "k")
    × (lookup "AWS_SECRET_ACCESS_KEY" started ≡ some "s")
    × (lookup "AWS_SESSION_TOKEN" started ≡ some "t")
runtime_exec_env-credentials_example =
    runtime_exec_env-credentials unset (stores_runtime_api "127.0.0.1:9001" ∷ []) [] customer "h"
      "k" "s" "t" "f" "1" started tt exec_after

split_twice : split_environment_variable "A=b=c" ≡ some ("A", "b=c")
unfolding split_environment_variable
split_twice = refl

customers :
    customer_environment_variables ("MODE=fast" ∷ "TZ=utc" ∷ "bad" ∷ []) ≡ ("MODE", "fast") ∷ []
unfolding customer_environment_variables
customers = refl
