-- ===== src/Managed/Router.antt =====
-- internal/lambda-managed-instances/invoke/invoke_router.go: which invoke a message of a runtime belongs
-- to. An `Invoke` is four steps: it claims its ID, acquires a runtime, stores it, and removes its
-- ID in the end; other calls may come between them.
pub mod Laws
use lambda_runtime_init.Base.{
  ℕ, Bool, true, false, Option, none, some, List, [], ◌∷◌, ◌++◌, String, str_eq, if◌then◌else◌,
}
use lambda_runtime_init.Base.Dict.{lookup, insert}
use lambda_runtime_init.Managed.Timeouts.{RecentCache, new_recent_cache, register, consume}
use lambda_runtime_init.Managed.Pool.{
  RuntimePool, PoolError, too_many_idle_runtimes, invoke_id_already_exists, no_ready_runtime,
  new_runtime_pool, add, acquire, reserve, expire_reservation,
}

-- A running invoke is nil (`none`) until its runtime is stored. `acquired` is the variable of each goroutine of `Invoke` between the two steps.
pub record InvokeRouter : Type 0 where
  pub runtime_pool : RuntimePool
  pub running_invokes : List (String × Option ℕ)
  pub acquired : List (String × ℕ)
  pub timeouts : RecentCache

unfoldable pub new_invoke_router : ℕ → InvokeRouter
unfolding new_runtime_pool new_recent_cache
new_invoke_router n = record {
  runtime_pool = new_runtime_pool n;
  running_invokes = [];
  acquired = [];
  timeouts = new_recent_cache;
}

-- The error types of a refusal.
pub data AppError : Type 0 where
  duplicated_invoke_id runtime_unavailable too_many_idle : AppError
  runtime_invoke_timeout runtime_invalid_invoke_id : AppError

-- A message to a running invoke is passed on to it, or refused, or the type assertion on nil panics.
pub data Routed : Type 0 where
  passed_on : ℕ → Routed
  refused : AppError → Routed
  panics : Routed

unfoldable pub erase {ℓ} : {V : Type ℓ} → String → List (String × V) → List (String × V)
erase key [] = []
erase key ((k, v) ∷ rest) = if str_eq k key then rest else (k, v) ∷ erase key rest

-- `SetIfAbsent`, with the nil runtime.
unfoldable pub invoke_claims : String → InvokeRouter → InvokeRouter × Option AppError
unfolding lookup insert
invoke_claims id r = elim (lookup id r.running_invokes) [
  | some _ ↦ (r, some duplicated_invoke_id)
  | none ↦ (record r { running_invokes = insert id none r.running_invokes }, none)
]

abbrev keep_acquired :
    String → InvokeRouter → RuntimePool × Option (ℕ × Bool) → InvokeRouter × Option AppError
keep_acquired id r (p, none) = (
  record r { runtime_pool = p; running_invokes = erase id r.running_invokes },
  some runtime_unavailable,
)
keep_acquired id r (p, some (rt, reserved)) =
    (record r { runtime_pool = p; acquired = insert id rt r.acquired }, none)

-- Where no runtime is ready the ID is given back.
unfoldable pub invoke_acquires : String → InvokeRouter → InvokeRouter × Option AppError
unfolding acquire erase insert
invoke_acquires id r = keep_acquired id r (acquire id r.runtime_pool)

unfoldable pub invoke_stores : String → InvokeRouter → InvokeRouter
unfolding lookup insert erase
invoke_stores id r = elim (lookup id r.acquired) [
  | none ↦ r
  | some rt ↦ record r {
    running_invokes = insert id (some rt) r.running_invokes;
    acquired = erase id r.acquired;
  }
]

-- The deferred `Remove`; an invoke that timed out has put its ID into the cache before.
unfoldable pub invoke_ends : Bool → String → InvokeRouter → InvokeRouter
unfolding erase register
invoke_ends timed_out id r = record r {
  running_invokes = erase id r.running_invokes;
  timeouts = if timed_out then register id r.timeouts else r.timeouts;
}

unfoldable pub runtime_next : ℕ → InvokeRouter → InvokeRouter × Option AppError
unfolding add
runtime_next runtime r =
    let (p, e) = add runtime r.runtime_pool in
    (record r { runtime_pool = p }, elim e [ none ↦ none | some _ ↦ some too_many_idle ])

-- `Consume` of the cache.
abbrev late : String → InvokeRouter → InvokeRouter × Routed
late id r =
    let (cache, consumed) = consume id r.timeouts in
    (
      record r { timeouts = cache },
      refused (if consumed then runtime_invoke_timeout else runtime_invalid_invoke_id),
    )

-- `RuntimeResponse` and `RuntimeError` route in the same way.
unfoldable pub route : String → InvokeRouter → InvokeRouter × Routed
unfolding lookup consume
route id r = elim (lookup id r.running_invokes) [
  | none ↦ late id r
  | some i ↦ (r, elim i [ none ↦ panics | some rt ↦ passed_on rt ])
]

abbrev refused_reservation : PoolError → AppError
refused_reservation invoke_id_already_exists = duplicated_invoke_id
refused_reservation _ = runtime_unavailable

unfoldable pub reserve_idle_runtime : String → InvokeRouter → InvokeRouter × Option AppError
unfolding lookup reserve
reserve_idle_runtime id r = elim (lookup id r.running_invokes) [
  | some _ ↦ (r, some duplicated_invoke_id)
  | none ↦
      let (p, e) = reserve id r.runtime_pool in
      (
        record r { runtime_pool = p },
        elim e [ none ↦ none | some x ↦ some (refused_reservation x) ],
      )
]

unfoldable pub reservation_expires : String → InvokeRouter → InvokeRouter
unfolding expire_reservation
reservation_expires id r = record r { runtime_pool = (expire_reservation id r.runtime_pool).0 }
