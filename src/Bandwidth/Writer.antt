-- ===== src/Bandwidth/Writer.antt =====
-- internal/lambda/core/bandwidthlimiter/bandwidthlimiter.go: `BandwidthLimitingWriter`.
pub mod Limited
pub mod Complete
use lambda_runtime_init.Base.{
  ℕ, zero, suc, ◌+◌, Bool, true, false, Option, none, some, List, [], ◌∷◌, length, if◌then◌else◌,
}
use lambda_runtime_init.Base.Int.{ℤ, pos, pos_part, ltb_ℤ}
use lambda_runtime_init.Bandwidth.Bucket.{Bucket}
use lambda_runtime_init.Bandwidth.Chunks.{ChunkIterator, new_chunk_iterator, next}
use lambda_runtime_init.Bandwidth.Throttler.{
  WriteError, Throttler, new_throttler, start, stop, Tick, Written, waiting, wrote,
  bandwidth_limiting_write,
}

pub record BandwidthLimitingWriter (W : Type 0) : Type 0 where
  pub w : W
  pub th : Throttler

unfoldable pub new_bandwidth_limiting_writer :
    {W : Type 0} → W → Option Bucket → Option (BandwidthLimitingWriter W)
unfolding new_throttler
new_bandwidth_limiting_writer w bucket = elim (new_throttler bucket) [
  | none ↦ none
  | some th ↦ some (record { w = w; th = th })
]

-- What the loop of `ChunkedWrite` does with the outcome of a chunk: it stops at an error, or goes on.
abbrev pub after_chunk :
    {W : Type 0} → (List Tick → Throttler → W → ℕ → Written W) → ℕ → Written W → Written W
after_chunk go n waiting = waiting
after_chunk go n (wrote th w written (some e) ts) = wrote th w (n + written) (some e) ts
after_chunk go n (wrote th w written none ts) = go ts th w (n + written)

module _ {W : Type 0} (write : W → List ℕ → W × ℕ × Option WriteError) where
  -- The loop of `ChunkedWrite`, on fuel: an iterator has no more chunks than bytes.
  unfoldable pub chunked_loop : ℕ → List Tick → Throttler → W → ℕ → ChunkIterator → Written W
  unfolding next bandwidth_limiting_write
  chunked_loop zero ts th w n i = waiting
  chunked_loop (suc fuel) ts th w n i = elim (next i).1 [
    | none ↦ wrote th w n none ts
    | some buf ↦
        after_chunk (λ ts' th' w' n'. chunked_loop fuel ts' th' w' n' (next i).0) n
          (bandwidth_limiting_write write ts th w buf)
  ]

  unfoldable pub chunked_write : List Tick → Throttler → W → List ℕ → Written W
  unfolding chunked_loop
  chunked_write ts th w p =
      chunked_loop (suc (length p)) ts th w 0
        (record { buf = p; chunk_size = pos_part th.b.capacity; offset = 0 })

  unfoldable pub write_limited : ℕ → List Tick → BandwidthLimitingWriter W → List ℕ → Written W
  unfolding start chunked_write bandwidth_limiting_write
  write_limited now ts s p =
      let th = start now s.th in
      if ltb_ℤ th.b.capacity (pos (length p))
      then chunked_write ts th s.w p
      else bandwidth_limiting_write write ts th s.w p

unfoldable pub close : {W : Type 0} → ℕ → BandwidthLimitingWriter W → BandwidthLimitingWriter W
unfolding stop
close now s = record s { th = stop now s.th }
