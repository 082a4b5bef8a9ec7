-- ===== src/Tests/Managed.antt =====
-- Concrete inputs for internal/lambda-managed-instances/invoke, and for internal/lambda/core/credentials.go.
use lambda_runtime_init.Base.{◌+◌, ◌≤◌, ◌≡◌, refl, none, some, false, List, [], ◌∷◌}
use lambda_runtime_init.Base.Int.{pos}
use lambda_runtime_init.Base.Dict.{lookup}
use lambda_runtime_init.Core.Credentials.{Credentials, CredentialsService}
use lambda_runtime_init.Core.Credentials.Laws.{Updated, update-get}
use lambda_runtime_init.Managed.Pool.{new_runtime_pool, acquire}
use lambda_runtime_init.Managed.Pool.Laws.{
  Op, adds, reserves, acquires, expires, run, total, added, handed, held, run-held,
}
use lambda_runtime_init.Managed.Router.{
  InvokeRouter, new_invoke_router, runtime_next, panics, passed_on, route, invoke_claims,
  invoke_acquires, invoke_stores,
}
use lambda_runtime_init.Managed.Router.Laws.{invoke-route}
use lambda_runtime_init.Managed.Running.{new_running_invoke}
use lambda_runtime_init.Managed.Running.Laws.{run-once}
use lambda_runtime_init.Managed.Running.Laws

abbrev pool_history : List Op
pool_history =
    adds 7
    ∷ adds 8
    ∷ adds 9
    ∷ reserves "a"
    ∷ acquires "b"
    ∷ expires "a"
    ∷ acquires "a"
    ∷ acquires "c"
    ∷ []

run-held_example :
    total (handed 7) (new_runtime_pool 2) pool_history
      + held 7 (run (new_runtime_pool 2) pool_history)
    ≡ total (added 7) (new_runtime_pool 2) pool_history
run-held_example = run-held 7 2 pool_history

abbrev router : InvokeRouter
router = (runtime_next 7 (new_invoke_router 2)).0

free_id : lookup "a" router.running_invokes ≡ none
unfolding lookup runtime_next new_invoke_router
free_id = refl

has_runtime : (acquire "a" router.runtime_pool).1 ≡ some (7, false)
unfolding acquire runtime_next new_invoke_router
has_runtime = refl

invoke-route_example :
    let r1 = (invoke_claims "a" router).0 in
    ((route "a" r1).1 ≡ panics)
    × ((route "a" (invoke_stores "a" (invoke_acquires "a" r1).0)).1 ≡ passed_on 7)
invoke-route_example = invoke-route "a" 7 false router free_id has_runtime

abbrev keys : Credentials
keys = record { aws_key = "k"; aws_secret = "s"; aws_session = "t"; expiration = pos 9 }

abbrev service : CredentialsService
service = record { credentials = ("x", record keys { aws_key = "old" }) ∷ [] }

update-get_example : Updated keys service
update-get_example = update-get keys service

abbrev messages : List Laws.Op
messages =
    Laws.starts "i"
    ∷ Laws.responds "j"
    ∷ Laws.responds "i"
    ∷ Laws.reverts
    ∷ Laws.responds "i"
    ∷ Laws.errs "i"
    ∷ Laws.errs ""
    ∷ Laws.fails
    ∷ []

run-once_example :
    let r = Laws.run new_running_invoke messages in (r.responses ≤ 1) × (r.errors ≤ 1)
run-once_example = run-once messages
