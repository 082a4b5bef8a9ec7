-- ===== src/Bandwidth/Writer/Complete.antt =====
-- A write through the limiter gets through: all of the buffer, in order, if the producer ticks often
-- enough.
use lambda_runtime_init.Base.{
  ℕ, zero, suc, ◌+◌, ◌≤◌, ◌<◌, ◌≡◌, refl, sym, ap, ◌∙◌, subst, inl, inr, true, false, Option, none,
  some, List, ◌++◌, arith, length, if◌then◌else◌, length-append,
}
use native.Mathlib.Decide.{dec_le}
use mathlib.Core.List.{append-nil, append_assoc}
use lambda_runtime_init.Base.Int.{pos, ltb_ℤ}
use lambda_runtime_init.Bandwidth.Bucket.{Bucket, IsValid}
use lambda_runtime_init.Bandwidth.Bucket.Rate.{cap}
use lambda_runtime_init.Bandwidth.Chunks.{ChunkIterator, next, remaining, IsInside}
use lambda_runtime_init.Bandwidth.Chunks.Laws.{next_cases}
use lambda_runtime_init.Bandwidth.Throttler.{
  WriteError, Throttler, start, Tick, Written, waiting, wrote, bandwidth_limiting_write,
}
use lambda_runtime_init.Bandwidth.Writer.Limited.{Completes, limited-Completes}
use lambda_runtime_init.Bandwidth.Writer.{
  BandwidthLimitingWriter, chunked_loop, after_chunk, chunked_write, write_limited,
}

-- The underlying writer takes whatever it is given, and what it took can be seen.
module _ {W : Type 0} (write : W → List ℕ → W × ℕ × Option WriteError) (sink : W → List ℕ)
    (accepts : (w : W) (p : List ℕ)
      → (sink (write w p).0 ≡ sink w ++ p)
        × ((write w p).1 ≡ length p)
        × ((write w p).2 ≡ none)) where
  Completes-shift :
      (c : ℕ) (w w' : W) (k : ℕ) (p rest : List ℕ) (ts ts' : List Tick) (r : Written W)
      → sink w' ≡ sink w ++ p
      → length ts ≤ length ts' + length p
      → Completes sink c w' (k + length p) rest ts' r
      → Completes sink c w k (p ++ rest) ts r
  Completes-shift c w w' k p rest ts ts' waiting s used h = h
  Completes-shift c w w' k p rest ts ts' (wrote th' w'' n err ts'') s used
        (s', m, e, used', v, same) =
      (
        s' ∙ ap (λ (l : List ℕ). l ++ rest) s ∙ append_assoc (sink w) p rest,
        omega (arith, length-append p rest),
        e,
        omega (arith, length-append p rest),
        v,
        same,
      )

  chunk-Completes :
      (c : ℕ) (w : W) (k : ℕ) (p rest : List ℕ) (ts : List Tick)
      (go : List Tick → Throttler → W → ℕ → Written W) (r : Written W)
      → Completes sink c w 0 p ts r
      → ((ts' : List Tick) (th' : Throttler) (w' : W)
          → IsValid th'.b
          → cap th'.b ≡ c
          → length ts ≤ length ts' + length p
          → Completes sink c w' (k + length p) rest ts' (go ts' th' w' (k + length p)))
      → Completes sink c w k (p ++ rest) ts (after_chunk go k r)
  chunk-Completes c w k p rest ts go waiting h rest_of = elim h [ ]
  chunk-Completes c w k p rest ts go (wrote th' w' n (some e) ts') (s, m, err, used, v, same)
        rest_of =
      cc
  chunk-Completes c w k p rest ts go (wrote th' w' n none ts') (s, m, err, used, v, same) rest_of =
      let all : n ≡ length p = omega arith in
      rw all (Completes-shift c w w' k p rest ts ts' _ s used (rest_of ts' th' w' v same used))

  chunked_loop-end :
      (fuel : ℕ) (ts : List Tick) (th : Throttler) (w : W) (k : ℕ) (i : ChunkIterator)
      → (next i).1 ≡ none
      → chunked_loop write (suc fuel) ts th w k i ≡ wrote th w k none ts
  chunked_loop-end fuel ts th w k i e = unfold chunked_loop in rw (e, chunked_loop)

  chunked_loop-more :
      (fuel : ℕ) (ts : List Tick) (th : Throttler) (w : W) (k : ℕ) (i : ChunkIterator)
      (buf : List ℕ)
      → (next i).1 ≡ some buf
      → chunked_loop write (suc fuel) ts th w k i
        ≡ after_chunk
            (λ ts' th' w' n'. chunked_loop write fuel ts' th' w' n' (next i).0)
            k
            (bandwidth_limiting_write write ts th w buf)
  chunked_loop-more fuel ts th w k i buf e = unfold chunked_loop in rw (e, chunked_loop)

  chunked_loop-Completes :
      (c fuel : ℕ) (ts : List Tick) (th : Throttler) (w : W) (k : ℕ) (i : ChunkIterator)
      → IsInside i
      → i.chunk_size ≡ c
      → IsValid th.b
      → cap th.b ≡ c
      → length (remaining i) ≤ length ts
      → length (remaining i) < fuel
      → Completes sink c w k (remaining i) ts (chunked_loop write fuel ts th w k i)
  chunked_loop-Completes c zero ts th w k i inside size v same enough f = absurd (omega arith)
  chunked_loop-Completes c (suc fuel) ts th w k i inside size v same enough f =
      elim (next_cases i inside) [
        | inl (nothing, e) ↦
            rw (chunked_loop-end fuel ts th w k i e, nothing)
              (sym (append-nil (sink w)), omega arith, refl, omega arith, v, same)
        | inr (buf, e, join, filled, small, inside', size') ↦
            let lengths : length buf + length (remaining (next i).0) ≡ length (remaining i) =
              sym (length-append buf (remaining (next i).0)) ∙ ap length join in
            let first : Completes sink c w 0 buf ts (bandwidth_limiting_write write ts th w buf) =
              subst
                (λ (x : ℕ).
                  Completes sink x w 0 buf ts (bandwidth_limiting_write write ts th w buf))
                same
                (limited-Completes write sink accepts ts th w buf v (omega arith) (omega arith)) in
            rw (chunked_loop-more fuel ts th w k i buf e) (
              subst
                (λ (l : List ℕ). Completes sink c w k l ts (
                  after_chunk (λ ts' th' w' n'. chunked_loop write fuel ts' th' w' n' (next i).0) k
                    (bandwidth_limiting_write write ts th w buf)))
                join
                (chunk-Completes c w k buf (remaining (next i).0) ts
                  (λ ts' th' w' n'. chunked_loop write fuel ts' th' w' n' (next i).0) _ first
                  λ ts' th' w' v' same' used.
                    chunked_loop-Completes c fuel ts' th' w' (k + length buf) (next i).0 inside'
                      (size' ∙ size) v' same' (omega arith) (omega arith)))
      ]

  start-bucket : (now : ℕ) (th : Throttler) → (start now th).b ≡ th.b
  start-bucket now th = unfold start in ground arith

  write_started :
      (ts : List Tick) (th : Throttler) (w : W) (p : List ℕ)
      → IsValid th.b
      → 0 < cap th.b
      → length p ≤ length ts
      → Completes sink (cap th.b) w 0 p ts (
          if ltb_ℤ th.b.capacity (pos (length p))
          then chunked_write write ts th w p
          else bandwidth_limiting_write write ts th w p)
  write_started ts th w p v room enough = elim (dec_le (length p) (cap th.b)) [
    | yes fits ↦
        let small : ltb_ℤ th.b.capacity (pos (length p)) ≡ false = ground arith in
        rw small (limited-Completes write sink accepts ts th w p v fits enough)
    | no large ↦
        let big : ltb_ℤ th.b.capacity (pos (length p)) ≡ true = ground arith in
        rw big (
          unfold chunked_write in
          chunked_loop-Completes (cap th.b) (suc (length p)) ts th w 0
            (record { buf = p; chunk_size = cap th.b; offset = 0 }) (omega arith, room) refl v refl
            enough (omega arith))
  ]

  -- `Write` returns, with no error and the length of the buffer, and the underlying writer has got
  -- the whole buffer in order, if the bucket is valid and its capacity is positive, the underlying
  -- writer takes whatever it is given, and there are as many ticks to come as bytes. It uses up one
  -- tick for each byte at most.
  pub write_limited-Completes :
      (now : ℕ) (ts : List Tick) (s : BandwidthLimitingWriter W) (p : List ℕ)
      → IsValid s.th.b
      → 0 < cap s.th.b
      → length p ≤ length ts
      → Completes sink (cap s.th.b) s.w 0 p ts (write_limited write now ts s p)
  unfolding write_limited
  write_limited-Completes now ts s p v room enough =
      let e = start-bucket now s.th in
      let t : Throttler = start now s.th in
      subst (λ (b : Bucket). Completes sink (cap b) s.w 0 p ts (write_limited write now ts s p)) e
        (write_started ts t s.w p (subst IsValid (sym e) v)
          (subst (λ (b : Bucket). 0 < cap b) (sym e) room) enough)
