-- ===== src/Managed/Router/Laws.antt =====
-- What a message of a runtime meets while an invoke claims its ID.
use lambda_runtime_init.Base.{ℕ, ◌≡◌, refl, ap, ◌∙◌, Bool, Option, none, some, List, String, arith}
use text.Mathlib.TextEquality.{eq_iff}
use lambda_runtime_init.Base.Dict.{lookup, insert, lookup-insert}
use lambda_runtime_init.Managed.Pool.{acquire}
use lambda_runtime_init.Managed.Router.{
  InvokeRouter, duplicated_invoke_id, passed_on, panics, invoke_claims, invoke_acquires,
  invoke_stores, route,
}

-- A running invoke cannot be claimed again, and nothing changes.
pub claims-once :
    (id : String) (i : Option ℕ) (r : InvokeRouter)
    → lookup id r.running_invokes ≡ some i
    → invoke_claims id r ≡ (r, some duplicated_invoke_id)
unfolding invoke_claims
claims-once id i r h = rw (invoke_claims, h) refl

found-inserted :
    (id : String) (x : Option ℕ) (m : List (String × Option ℕ)) → lookup id (insert id x m) ≡ some x
found-inserted id x m = ground (arith, lookup-insert id id x m, eq_iff id id)

found-acquired : (id : String) (x : ℕ) (m : List (String × ℕ)) → lookup id (insert id x m) ≡ some x
found-acquired id x m = ground (arith, lookup-insert id id x m, eq_iff id id)

route-stored :
    (id : String) (i : Option ℕ) (r : InvokeRouter)
    → lookup id r.running_invokes ≡ some i
    → (route id r).1 ≡ elim i [ none ↦ panics | some rt ↦ passed_on rt ]
unfolding route
route-stored id i r h = rw (route, h) refl

claimed :
    (id : String) (r : InvokeRouter)
    → lookup id r.running_invokes ≡ none
    → lookup id (invoke_claims id r).0.running_invokes ≡ some none
unfolding invoke_claims
claimed id r h = rw (invoke_claims, h) (found-inserted id none r.running_invokes)

stored :
    (id : String) (rt : ℕ) (r : InvokeRouter)
    → lookup id r.acquired ≡ some rt
    → lookup id (invoke_stores id r).running_invokes ≡ some (some rt)
unfolding invoke_stores
stored id rt r h = rw (invoke_stores, h) (found-inserted id (some rt) r.running_invokes)

acquired :
    (id : String) (rt : ℕ) (b : Bool) (r : InvokeRouter)
    → (acquire id r.runtime_pool).1 ≡ some (rt, b)
    → lookup id (invoke_acquires id r).0.acquired ≡ some rt
unfolding invoke_acquires
acquired id rt b r h = ground (arith, h, found-acquired id rt r.acquired)

claims-pool :
    (id : String) (r : InvokeRouter) → (invoke_claims id r).0.runtime_pool ≡ r.runtime_pool
unfolding invoke_claims
claims-pool id r = ground arith

-- An invoke whose ID is free, and for which the pool has a runtime: once it is stored, a message with
-- the ID reaches that very runtime; but one that comes right after the ID was claimed panics.
pub invoke-route :
    (id : String) (rt : ℕ) (b : Bool) (r : InvokeRouter)
    → lookup id r.running_invokes ≡ none
    → (acquire id r.runtime_pool).1 ≡ some (rt, b)
    → let r1 = (invoke_claims id r).0 in
      ((route id r1).1 ≡ panics)
      × ((route id (invoke_stores id (invoke_acquires id r1).0)).1 ≡ passed_on rt)
unfolding invoke_claims
invoke-route id rt b r n h =
    let r1 = (invoke_claims id r).0 in
    let r2 = (invoke_acquires id r1).0 in
    (
      route-stored id none r1 (claimed id r n),
      route-stored id (some rt) (invoke_stores id r2) (
          stored id rt r2
            (acquired id rt b r1 (ap (λ p. (acquire id p).1) (claims-pool id r) ∙ h))),
    )
