-- ===== src/Managed/Timeouts.antt =====
-- internal/lambda-managed-instances/invoke/timeout/timeout_cache.go: the IDs of the invokes that timed out
-- last. The list is `order`; the keys of `entries` are its members, since the methods change both.
pub mod Laws
use lambda_runtime_init.Base.{
  ℕ, Bool, true, false, List, [], ◌∷◌, ◌++◌, String, str_eq, if◌then◌else◌, ◌==◌, length, drop,
}

abbrev pub timeout_cache_size : ℕ
timeout_cache_size = 1_000

pub record RecentCache : Type 0 where
  pub order : List String

unfoldable pub new_recent_cache : RecentCache
new_recent_cache = record { order = [] }

unfoldable pub has : String → List String → Bool
has id [] = false
has id (x ∷ xs) = let rest = has id xs in if str_eq x id then true else rest

unfoldable pub without : String → List String → List String
without id [] = []
without id (x ∷ xs) = let rest = without id xs in if str_eq x id then xs else x ∷ rest

-- Whether it was there; its first place is the only one.
unfoldable pub try_delete : String → RecentCache → RecentCache × Bool
unfolding has without
try_delete id c =
    if has id c.order then (record { order = without id c.order }, true) else (c, false)

-- The oldest entry makes room.
abbrev pub evicted : List String → List String
evicted order = if length order == timeout_cache_size then drop 1 order else order

unfoldable pub register : String → RecentCache → RecentCache
unfolding has without
register id c =
    if has id c.order
    then record { order = without id c.order ++ id ∷ [] }
    else record { order = evicted c.order ++ id ∷ [] }

unfoldable pub consume : String → RecentCache → RecentCache × Bool
unfolding try_delete
consume id c = try_delete id c
