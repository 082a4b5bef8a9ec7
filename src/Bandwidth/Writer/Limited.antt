-- ===== src/Bandwidth/Writer/Limited.antt =====
-- A write of one chunk through the limiter gets through, if the producer ticks often enough.
use lambda_runtime_init.Base.{
  ℕ, zero, suc, ◌+◌, ◌-◌, ◌≤◌, ◌<◌, ◌≡◌, ◌∙◌, true, false, Option, none, List, [], ◌∷◌, ◌++◌, arith,
  length, min,
}
use native.Mathlib.Decide.{dec_le}
use lambda_runtime_init.Base.Int.{pos, ltb_ℤ}
use lambda_runtime_init.Bandwidth.Bucket.{Bucket, IsValid, consume_tokens, produce_tokens}
use lambda_runtime_init.Bandwidth.Bucket.Rate.{tokens, cap, produce_tokens_lem, consume_tokens_lem}
use lambda_runtime_init.Bandwidth.Throttler.{
  WriteError, Throttler, Tick, refill_times, wait, Written, waiting, wrote, limiting_loop,
  bandwidth_limiting_write, pass,
}

-- A refill, or several, add a token at least unless the bucket is full, and keep its size.
pub record Refilled (b b' : Bucket) : Type 0 where
  pub valid : IsValid b'
  pub more : min (tokens b + 1) (cap b) ≤ tokens b'
  pub same_cap : cap b' ≡ cap b

produce-Refilled : (b : Bucket) → IsValid b → Refilled b (produce_tokens b)
produce-Refilled b v =
    let (v', t, r, c) = produce_tokens_lem b v in
    record { valid = v'; more = omega (arith, t, v.refills); same_cap = c }

refill_times-Refilled : (n : ℕ) (b : Bucket) → IsValid b → Refilled b (refill_times (suc n) b)
unfolding refill_times
refill_times-Refilled zero b v = produce-Refilled b v
refill_times-Refilled (suc n) b v =
    let p = produce-Refilled b v in
    let q = refill_times-Refilled n (produce_tokens b) p.valid in
    record {
      valid = q.valid;
      more = omega (arith, p.more, q.more, p.same_cap);
      same_cap = q.same_cap ∙ p.same_cap;
    }

module _ {W : Type 0} (sink : W → List ℕ) where
  -- All of `p` is written behind `k` bytes counted before, with no error, and for each byte one
  -- tick is used at most.
  abbrev pub Completes : ℕ → W → ℕ → List ℕ → List Tick → Written W → Type 0
  Completes c w k p ts waiting = ⊥
  Completes c w k p ts (wrote th' w' n err ts') =
      (sink w' ≡ sink w ++ p)
      × (n ≡ k + length p)
      × (err ≡ none)
      × (length ts ≤ length ts' + length p)
      × IsValid th'.b
      × (cap th'.b ≡ c)

  -- The loop uses no more ticks than there are tokens missing.
  abbrev pub Passes : Bucket → W → List ℕ → List Tick → Written W → Type 0
  Passes b w p ts waiting = ⊥
  Passes b w p ts (wrote th' w' n err ts') =
      (sink w' ≡ sink w ++ p)
      × (n ≡ length p)
      × (err ≡ none)
      × (length ts ≤ length ts' + (length p - tokens b))
      × IsValid th'.b
      × (cap th'.b ≡ cap b)

-- The underlying writer takes whatever it is given, and what it took can be seen.
module _ {W : Type 0} (write : W → List ℕ → W × ℕ × Option WriteError) (sink : W → List ℕ)
    (accepts : (w : W) (p : List ℕ)
      → (sink (write w p).0 ≡ sink w ++ p)
        × ((write w p).1 ≡ length p)
        × ((write w p).2 ≡ none)) where
  Passes-tick :
      (b b' : Bucket) (w : W) (p : List ℕ) (t : Tick) (ts : List Tick) (r : Written W)
      → cap b' ≡ cap b
      → length p - tokens b' + 1 ≤ length p - tokens b
      → Passes sink b' w p ts r
      → Passes sink b w p (t ∷ ts) r
  Passes-tick b b' w p t ts waiting c h r = r
  Passes-tick b b' w p t ts (wrote th' w' n err ts') c h (s, k, e, used, v, same) =
      (s, k, e, omega arith, v, same ∙ c)

  pass-Passes :
      (b : Bucket) (th : Throttler) (w : W) (p : List ℕ) (ts : List Tick)
      → IsValid th.b
      → cap th.b ≡ cap b
      → Passes sink b w p ts (pass write th w p ts)
  pass-Passes b th w p ts v c =
      ((accepts w p).0, (accepts w p).1, (accepts w p).2, omega arith, v, c)

  -- The throttler after a request for the tokens of `p`.
  abbrev asked : Throttler → List ℕ → Throttler
  asked th p = record th { b = (consume_tokens (pos (length p)) th.b).0 }

  limiting_loop-granted :
      (ts : List Tick) (th : Throttler) (w : W) (p : List ℕ)
      → (consume_tokens (pos (length p)) th.b).1 ≡ true
      → limiting_loop write ts th w p ≡ pass write (asked th p) w p ts
  unfolding limiting_loop
  limiting_loop-granted [] th w p g = rw g
  limiting_loop-granted (t ∷ ts) th w p g = rw g

  limiting_loop-waits :
      (t : Tick) (ts : List Tick) (th : Throttler) (w : W) (p : List ℕ)
      → (consume_tokens (pos (length p)) th.b).1 ≡ false
      → limiting_loop write (t ∷ ts) th w p ≡ limiting_loop write ts (wait t (asked th p)) w p
  unfolding limiting_loop
  limiting_loop-waits t ts th w p g = rw g

  granted-Passes :
      (ts : List Tick) (th : Throttler) (w : W) (p : List ℕ)
      → IsValid th.b
      → length p ≤ tokens th.b
      → Passes sink th.b w p ts (limiting_loop write ts th w p)
  granted-Passes ts th w p v h =
      let (v', granted, left, _, c) = consume_tokens_lem th.b (length p) v in
      rw (limiting_loop-granted ts th w p (ground (arith, granted)))
        (pass-Passes th.b (asked th p) w p ts v' c)

  -- A refused request leaves the tokens, and the wait that follows adds one at least.
  waited_lem :
      (t : Tick) (th : Throttler) (p : List ℕ)
      → IsValid th.b
      → tokens th.b < length p
      → let th' = wait t (asked th p) in
        IsValid th'.b × (min (tokens th.b + 1) (cap th.b) ≤ tokens th'.b) × (cap th'.b ≡ cap th.b)
  unfolding wait
  waited_lem t th p v h =
      let (v', granted, left, _, c) = consume_tokens_lem th.b (length p) v in
      let q = refill_times-Refilled t.missed (asked th p).b v' in
      let kept : tokens (asked th p).b ≡ tokens th.b = ground (arith, left) in
      (q.valid, omega (arith, q.more, kept, c), q.same_cap ∙ c)

  limiting_loop-Passes :
      (ts : List Tick) (th : Throttler) (w : W) (p : List ℕ)
      → IsValid th.b
      → length p ≤ cap th.b
      → length p ≤ tokens th.b + length ts
      → Passes sink th.b w p ts (limiting_loop write ts th w p)
  limiting_loop-Passes [] th w p v fits enough = granted-Passes [] th w p v (omega arith)
  limiting_loop-Passes (t ∷ ts) th w p v fits enough = elim (dec_le (length p) (tokens th.b)) [
    | yes h ↦ granted-Passes (t ∷ ts) th w p v h
    | no h ↦
        let (v', more, c) = waited_lem t th p v (omega arith) in
        let (_, granted, _, _, _) = consume_tokens_lem th.b (length p) v in
        rw (limiting_loop-waits t ts th w p (ground (arith, granted))) (
          Passes-tick th.b (wait t (asked th p)).b w p t ts _ c (omega (arith, more)) (
            limiting_loop-Passes ts (wait t (asked th p)) w p v' (omega (arith, c))
              (omega (arith, more))))
  ]

  Passes-Completes :
      (b : Bucket) (w : W) (p : List ℕ) (ts : List Tick) (r : Written W)
      → Passes sink b w p ts r
      → Completes sink (cap b) w 0 p ts r
  Passes-Completes b w p ts waiting h = h
  Passes-Completes b w p ts (wrote th' w' n err ts') (s, k, e, used, v, same) =
      (s, omega arith, e, omega arith, v, same)

  bandwidth_limiting_write-fits :
      (ts : List Tick) (th : Throttler) (w : W) (p : List ℕ)
      → IsValid th.b
      → length p ≤ cap th.b
      → bandwidth_limiting_write write ts th w p ≡ limiting_loop write ts th w p
  bandwidth_limiting_write-fits ts th w p v fits =
      let small : ltb_ℤ th.b.capacity (pos (length p)) ≡ false = ground arith in
      unfold bandwidth_limiting_write in rw small

  pub limited-Completes :
      (ts : List Tick) (th : Throttler) (w : W) (p : List ℕ)
      → IsValid th.b
      → length p ≤ cap th.b
      → length p ≤ length ts
      → Completes sink (cap th.b) w 0 p ts (bandwidth_limiting_write write ts th w p)
  limited-Completes ts th w p v fits enough =
      rw (bandwidth_limiting_write-fits ts th w p v fits)
        (Passes-Completes th.b w p ts _ (limiting_loop-Passes ts th w p v fits (omega arith)))
