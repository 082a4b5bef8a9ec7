-- ===== src/Bandwidth/Chunks.antt =====
-- internal/lambda/core/bandwidthlimiter/util.go: a buffer cut into chunks.
-- Bytes are numbers; the chunk size is the capacity of a bucket, which is positive.
pub mod Laws
use lambda_runtime_init.Base.{
  ℕ, zero, suc, ◌+◌, ◌-◌, ◌≤◌, ◌<◌, ◌≡◌, refl, sym, ap, ◌∙◌, subst, Bool, true, false, Option, none,
  some, List, [], ◌∷◌, ◌++◌, arith, length, take, drop, take-append-drop, length-take, length-drop,
  ◌==◌, if◌then◌else◌, ltb, Bool-cases, inl, inr, ==_iff,
}
use lambda_runtime_init.Base

unfoldable pub min : ℕ → ℕ → ℕ
min a b = if ltb a b then a else b

pub record ChunkIterator : Type 0 where
  pub buf : List ℕ
  pub chunk_size : ℕ
  pub offset : ℕ

-- The buffer is `none` for nil.
unfoldable pub new_chunk_iterator : Option (List ℕ) → ℕ → Option ChunkIterator
new_chunk_iterator none chunk_size = none
new_chunk_iterator (some buf) chunk_size =
    some (record { buf = buf; chunk_size = chunk_size; offset = 0 })

-- `buf[begin:end]`.
abbrev pub slice : List ℕ → ℕ → ℕ → List ℕ
slice buf begin end = take (end - begin) (drop begin buf)

unfoldable pub next : ChunkIterator → ChunkIterator × Option (List ℕ)
unfolding min
next i =
    let end = min (i.offset + i.chunk_size) (length i.buf) in
    (record i { offset = end }, if i.offset == end then none else some (slice i.buf i.offset end))

-- The chunks that a loop over `Next` gets, up to the first nil.
unfoldable pub chunks : ℕ → ChunkIterator → List (List ℕ)
chunks zero i = []
chunks (suc fuel) i =
    let rest = chunks fuel (next i).0 in elim (next i).1 [ none ↦ [] | some c ↦ c ∷ rest ]

-- What is left of the buffer.
abbrev pub remaining : ChunkIterator → List ℕ
remaining i = drop i.offset i.buf

abbrev pub IsInside : ChunkIterator → Type 0
IsInside i = (i.offset ≤ length i.buf) × (0 < i.chunk_size)
