-- ===== src/Managed/Pool.antt =====
-- internal/lambda-managed-instances/invoke/runtime_pool.go: the runtimes that wait for an invoke. A
-- runtime is an address; each method holds the mutex, and is a step.
pub mod Laws
use lambda_runtime_init.Base.{
  ℕ, ◌+◌, Bool, true, false, Option, none, some, List, [], ◌∷◌, ◌++◌, String, str_eq, if◌then◌else◌,
  leb, length,
}
use lambda_runtime_init.Base.Dict.{lookup, insert}

pub data PoolError : Type 0 where
  too_many_idle_runtimes invoke_id_already_exists no_ready_runtime : PoolError

-- The timer of a reservation is in the interleaving: it may expire at any time.
pub record RuntimePool : Type 0 where
  pub idle : List ℕ
  pub reserved : List (String × ℕ)
  pub max_size : ℕ

unfoldable pub new_runtime_pool : ℕ → RuntimePool
new_runtime_pool max_size = record { idle = []; reserved = []; max_size = max_size }

-- `delete(m, key)`; the keys of a map differ.
unfoldable pub remove : String → List (String × ℕ) → List (String × ℕ)
remove key [] = []
remove key ((k, v) ∷ rest) = if str_eq k key then rest else (k, v) ∷ remove key rest

unfoldable pub add : ℕ → RuntimePool → RuntimePool × Option PoolError
add runtime p =
    if leb p.max_size (length p.idle + length p.reserved)
    then (p, some too_many_idle_runtimes)
    else (record p { idle = p.idle ++ runtime ∷ [] }, none)

unfoldable pub dequeue_idle : RuntimePool → RuntimePool × Option ℕ
dequeue_idle p = elim p.idle [ [] ↦ (p, none) | rt ∷ rest ↦ (record p { idle = rest }, some rt) ]

abbrev put_reserved : String → RuntimePool × Option ℕ → RuntimePool × Option PoolError
put_reserved id (p, none) = (p, some no_ready_runtime)
put_reserved id (p, some rt) = (record p { reserved = insert id rt p.reserved }, none)

unfoldable pub reserve : String → RuntimePool → RuntimePool × Option PoolError
unfolding lookup dequeue_idle insert
reserve id p = elim (lookup id p.reserved) [
  | some _ ↦ (p, some invoke_id_already_exists)
  | none ↦ put_reserved id (dequeue_idle p)
]

-- A runtime with whether it was reserved; none where no runtime is ready.
abbrev not_reserved : RuntimePool × Option ℕ → RuntimePool × Option (ℕ × Bool)
not_reserved (p, none) = (p, none)
not_reserved (p, some rt) = (p, some (rt, false))

unfoldable pub acquire : String → RuntimePool → RuntimePool × Option (ℕ × Bool)
unfolding lookup remove dequeue_idle
acquire id p = elim (lookup id p.reserved) [
  | some rt ↦ (record p { reserved = remove id p.reserved }, some (rt, true))
  | none ↦ not_reserved (dequeue_idle p)
]

unfoldable pub expire_reservation : String → RuntimePool → RuntimePool × Bool
unfolding lookup remove
expire_reservation id p = elim (lookup id p.reserved) [
  | none ↦ (p, false)
  | some rt ↦ (record p { reserved = remove id p.reserved; idle = p.idle ++ rt ∷ [] }, true)
]

pub record RuntimePoolCounts : Type 0 where
  pub idle : ℕ
  pub reserved : ℕ
  pub total : ℕ

unfoldable pub counts : RuntimePool → RuntimePoolCounts
counts p = record {
  idle = length p.idle;
  reserved = length p.reserved;
  total = length p.idle + length p.reserved;
}
