-- ===== src/Managed/Timeouts/Laws.antt =====
-- How many timed-out invokes are remembered, and for how long.
use lambda_runtime_init.Base.{
  ◌+◌, ◌≤◌, ◌<◌, ◌≡◌, true, List, [], ◌∷◌, ◌++◌, String, length, length-append, arith,
}
use text.Mathlib.TextEquality.{eq_iff}
use lambda_runtime_init.Managed.Timeouts.{
  RecentCache, new_recent_cache, has, without, register, consume, evicted, timeout_cache_size,
}

pub data Op : Type 0 where
  registers consumes : String → Op

unfoldable pub step : RecentCache → Op → RecentCache
unfolding register consume
step c (registers id) = register id c
step c (consumes id) = (consume id c).0

unfoldable pub run : RecentCache → List Op → RecentCache
unfolding step
run c [] = c
run c (o ∷ os) = run (step c o) os

length-without :
    (id : String) (xs : List String) → has id xs ≡ true → length xs ≡ length (without id xs) + 1
unfolding has without
length-without id [] h = cc
length-without id (x ∷ xs) h = ground (arith, length-without id xs)

length-evicted :
    (xs : List String) → length xs ≤ timeout_cache_size → length (evicted xs) < timeout_cache_size
length-evicted [] h = ground arith
length-evicted (x ∷ xs) h = ground arith

step-size :
    (c : RecentCache) (o : Op)
    → length c.order ≤ timeout_cache_size
    → length (step c o).order ≤ timeout_cache_size
unfolding step
step-size c (registers id) h = ground (
  arith,
  length-without id c.order,
  length-append (without id c.order) (id ∷ []),
  length-append (evicted c.order) (id ∷ []),
  length-evicted c.order h,
)
step-size c (consumes id) h = ground (arith, length-without id c.order)

run-size-from :
    (c : RecentCache) (os : List Op)
    → length c.order ≤ timeout_cache_size
    → length (run c os).order ≤ timeout_cache_size
unfolding run
run-size-from c [] h = h
run-size-from c (o ∷ os) h = run-size-from (step c o) os (step-size c o h)

-- Over any history the cache remembers 1,000 timed-out invokes at most.
pub run-size : (os : List Op) → length (run new_recent_cache os).order ≤ timeout_cache_size
unfolding new_recent_cache
run-size os = run-size-from new_recent_cache os (omega arith)

has-append : (id : String) (xs : List String) → has id (xs ++ id ∷ []) ≡ true
unfolding has
has-append id [] = ground (arith, eq_iff id id)
has-append id (x ∷ xs) = ground (arith, has-append id xs)

-- An invoke that was registered last is found once.
pub register-consume : (id : String) (c : RecentCache) → (consume id (register id c)).1 ≡ true
unfolding register consume
register-consume id c =
    ground (arith, has-append id (without id c.order), has-append id (evicted c.order))
