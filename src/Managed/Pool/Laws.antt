-- ===== src/Managed/Pool/Laws.antt =====
-- Where each runtime is, over all histories of a pool.
use lambda_runtime_init.Base.{
  ℕ, ◌+◌, ◌≤◌, ◌≡◌, refl, ◌∙◌, inl, inr, none, some, List, [], ◌∷◌, ◌++◌, String, if◌then◌else◌,
  length, length-append, ◌==◌, arith, Option-cases,
}
use lambda_runtime_init.Base.Dict.{lookup, insert-new}
use lambda_runtime_init.Managed.Pool.{
  RuntimePool, new_runtime_pool, remove, add, reserve, acquire, expire_reservation, counts,
}

pub data Op : Type 0 where
  adds : ℕ → Op
  reserves acquires expires : String → Op

unfoldable pub step : RuntimePool → Op → RuntimePool
unfolding add reserve acquire expire_reservation
step p (adds r) = (add r p).0
step p (reserves id) = (reserve id p).0
step p (acquires id) = (acquire id p).0
step p (expires id) = (expire_reservation id p).0

unfoldable pub run : RuntimePool → List Op → RuntimePool
unfolding step
run p [] = p
run p (o ∷ os) = run (step p o) os

-- How often a runtime is in a list.
abbrev pub occurs : ℕ → List ℕ → ℕ
occurs r [] = 0
occurs r (x ∷ xs) = (if x == r then 1 else 0) + occurs r xs

abbrev pub occurs_reserved : ℕ → List (String × ℕ) → ℕ
occurs_reserved r [] = 0
occurs_reserved r ((id, x) ∷ xs) = (if x == r then 1 else 0) + occurs_reserved r xs

abbrev pub held : ℕ → RuntimePool → ℕ
held r p = occurs r p.idle + occurs_reserved r p.reserved

abbrev is_same : ℕ → ℕ → ℕ
is_same x r = if x == r then 1 else 0

-- A runtime that an operation put into the pool, or that it handed out.
abbrev pub added : ℕ → RuntimePool → Op → ℕ
added r p (adds x) = elim (add x p).1 [ none ↦ is_same x r | some e ↦ 0 ]
added r p _ = 0

abbrev pub handed : ℕ → RuntimePool → Op → ℕ
handed r p (acquires id) = elim (acquire id p).1 [ none ↦ 0 | some x ↦ is_same (x.0) r ]
handed r p _ = 0

abbrev pub total : (RuntimePool → Op → ℕ) → RuntimePool → List Op → ℕ
total f p [] = 0
total f p (o ∷ os) = f p o + total f (step p o) os

occurs-append : (r x : ℕ) (xs : List ℕ) → occurs r (xs ++ x ∷ []) ≡ occurs r xs + is_same x r
occurs-append r x [] = omega arith
occurs-append r x (y ∷ xs) = omega (arith, occurs-append r x xs)

reserved-append :
    (r x : ℕ) (id : String) (xs : List (String × ℕ))
    → occurs_reserved r (xs ++ (id, x) ∷ []) ≡ occurs_reserved r xs + is_same x r
reserved-append r x id [] = omega arith
reserved-append r x id ((k, y) ∷ xs) = omega (arith, reserved-append r x id xs)

occurs-remove :
    (r x : ℕ) (id : String) (xs : List (String × ℕ))
    → lookup id xs ≡ some x
    → occurs_reserved r xs ≡ occurs_reserved r (remove id xs) + is_same x r
unfolding lookup remove
occurs-remove r x id [] h = cc
occurs-remove r x id ((k, y) ∷ xs) h = ground (arith, occurs-remove r x id xs)

length-remove :
    (x : ℕ) (id : String) (xs : List (String × ℕ))
    → lookup id xs ≡ some x
    → length xs ≡ length (remove id xs) + 1
unfolding lookup remove
length-remove x id [] h = cc
length-remove x id ((k, y) ∷ xs) h = ground (arith, length-remove x id xs)

abbrev pool : List ℕ → List (String × ℕ) → ℕ → RuntimePool
pool xs rs m = record { idle = xs; reserved = rs; max_size = m }

reserve-held :
    (r : ℕ) (id : String) (xs : List ℕ) (rs : List (String × ℕ)) (m : ℕ)
    → let p = pool xs rs m in
      (held r (reserve id p).0 ≡ held r p)
      × (length (reserve id p).0.idle + length (reserve id p).0.reserved ≡ length xs + length rs)
unfolding reserve
reserve-held r id [] rs m = ground arith
reserve-held r id (x ∷ xs) rs m = elim (Option-cases (lookup id rs)) [
  | inr (y, n) ↦ rw (reserve, n) (refl, refl)
  | inl n ↦
      rw (reserve, n, insert-new id x rs n)
        (omega (arith, reserved-append r x id rs), omega (arith, length-append rs ((id, x) ∷ [])))
]

acquire-held :
    (r : ℕ) (id : String) (xs : List ℕ) (rs : List (String × ℕ)) (m : ℕ)
    → let p = pool xs rs m in
      (held r p ≡ held r (acquire id p).0 + handed r p (acquires id))
      × (length (acquire id p).0.idle + length (acquire id p).0.reserved ≤ length xs + length rs)
unfolding acquire
acquire-held r id [] rs m = elim (Option-cases (lookup id rs)) [
  | inr (y, n) ↦
      rw (acquire, n)
        (omega (arith, occurs-remove r y id rs n), omega (arith, length-remove y id rs n))
  | inl n ↦ rw (acquire, n) (omega arith, omega arith)
]
acquire-held r id (x ∷ xs) rs m = elim (Option-cases (lookup id rs)) [
  | inr (y, n) ↦
      rw (acquire, n)
        (omega (arith, occurs-remove r y id rs n), omega (arith, length-remove y id rs n))
  | inl n ↦ rw (acquire, n) (omega arith, omega arith)
]

expire-held :
    (r : ℕ) (id : String) (xs : List ℕ) (rs : List (String × ℕ)) (m : ℕ)
    → let p = pool xs rs m in
      (held r (expire_reservation id p).0 ≡ held r p)
      × (length (expire_reservation id p).0.idle + length (expire_reservation id p).0.reserved
          ≡ length xs + length rs)
unfolding expire_reservation
expire-held r id xs rs m = elim (Option-cases (lookup id rs)) [
  | inl n ↦ rw (expire_reservation, n) (refl, refl)
  | inr (x, n) ↦
      rw (expire_reservation, n)
        (
          omega (arith, occurs-append r x xs, occurs-remove r x id rs n),
          omega (arith, length-append xs (x ∷ []), length-remove x id rs n),
        )
]

-- An operation neither loses a runtime nor makes one up.
step-held :
    (r : ℕ) (p : RuntimePool) (o : Op) → held r p + added r p o ≡ held r (step p o) + handed r p o
unfolding step
step-held r p (adds x) = ground (arith, occurs-append r x p.idle)
step-held r p (reserves id) = omega (arith, reserve-held r id p.idle p.reserved p.max_size)
step-held r p (acquires id) = omega (arith, acquire-held r id p.idle p.reserved p.max_size)
step-held r p (expires id) = omega (arith, expire-held r id p.idle p.reserved p.max_size)

run-held-from :
    (r : ℕ) (p : RuntimePool) (os : List Op)
    → total (handed r) p os + held r (run p os) ≡ held r p + total (added r) p os
unfolding run
run-held-from r p [] = omega arith
run-held-from r p (o ∷ os) = omega (arith, step-held r p o, run-held-from r (step p o) os)

max-same : (p : RuntimePool) (o : Op) → (step p o).max_size ≡ p.max_size
unfolding step
max-same p (adds x) = ground arith
max-same p (reserves id) = ground arith
max-same p (acquires id) = ground arith
max-same p (expires id) = ground arith

-- Over any history, reservations, acquisitions and expiries, each runtime has been handed
-- out or is still in the pool, idle or reserved, exactly as often as it was added: none is lost,
-- and none serves two invokes.
pub run-held :
    (r m : ℕ) (os : List Op)
    → total (handed r) (new_runtime_pool m) os + held r (run (new_runtime_pool m) os)
      ≡ total (added r) (new_runtime_pool m) os
unfolding new_runtime_pool
run-held r m os = omega (arith, run-held-from r (new_runtime_pool m) os)

step-size :
    (p : RuntimePool) (o : Op)
    → length p.idle + length p.reserved ≤ p.max_size
    → let p' = step p o in length p'.idle + length p'.reserved ≤ p'.max_size
unfolding step
step-size p (adds x) h = ground (arith, length-append p.idle (x ∷ []))
step-size p (reserves id) h =
    omega (arith, h, reserve-held 0 id p.idle p.reserved p.max_size, max-same p (reserves id))
step-size p (acquires id) h =
    omega (arith, h, acquire-held 0 id p.idle p.reserved p.max_size, max-same p (acquires id))
step-size p (expires id) h =
    omega (arith, h, expire-held 0 id p.idle p.reserved p.max_size, max-same p (expires id))

run-size-from :
    (p : RuntimePool) (os : List Op)
    → length p.idle + length p.reserved ≤ p.max_size
    → let p' = run p os in
      (length p'.idle + length p'.reserved ≤ p'.max_size) × (p'.max_size ≡ p.max_size)
unfolding run
run-size-from p [] h = (h, refl)
run-size-from p (o ∷ os) h =
    let next = run-size-from (step p o) os (step-size p o h) in (next.0, next.1 ∙ max-same p o)

-- Over any history the pool has, idle and reserved together, at most the runtimes that it was made for.
pub run-size : (m : ℕ) (os : List Op) → (counts (run (new_runtime_pool m) os)).total ≤ m
unfolding new_runtime_pool counts
run-size m os =
    let (bound, same) = run-size-from (new_runtime_pool m) os (omega arith) in
    omega (arith, bound, same)
