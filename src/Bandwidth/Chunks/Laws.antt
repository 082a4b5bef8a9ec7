-- ===== src/Bandwidth/Chunks/Laws.antt =====
-- The chunks of a buffer are its pieces in order.
use lambda_runtime_init.Base.{
  ℕ, zero, suc, ◌+◌, ◌-◌, ◌≤◌, ◌<◌, ◌≡◌, refl, sym, ap, ◌∙◌, subst, ◌⊎◌, inl, inr, none, some, List,
  [], ◌∷◌, ◌++◌, arith, length, drop, take-append-drop, length-take, length-drop, length-append,
}
use native.Mathlib.Decide.{dec_lt}
use lambda_runtime_init.Bandwidth.Chunks.{ChunkIterator, next, slice, chunks, remaining, IsInside}

drop-nil : (n : ℕ) → drop {A = ℕ} n [] ≡ []
drop-nil zero = refl
drop-nil (suc n) = refl

drop-drop : (m n : ℕ) (xs : List ℕ) → drop n (drop m xs) ≡ drop (m + n) xs
drop-drop zero n xs = ap (λ (k : ℕ). drop k xs) (omega arith)
drop-drop (suc m) n [] = drop-nil n ∙ sym (drop-nil (suc m + n))
drop-drop (suc m) n (x ∷ xs) =
    drop-drop m n xs
    ∙ ap (λ (k : ℕ). drop k (x ∷ xs)) {x = suc (m + n)} {y = suc m + n} (omega arith)

slice-append : (buf : List ℕ) (b e : ℕ) → b ≤ e → slice buf b e ++ drop e buf ≡ drop b buf
slice-append buf b e h =
    ap (◌++◌ (slice buf b e))
      (ap (λ (k : ℕ). drop k buf) (omega arith) ∙ sym (drop-drop b (e - b) buf))
    ∙ take-append-drop (e - b) (drop b buf)

length-remaining : (i : ChunkIterator) → length (remaining i) ≡ length i.buf - i.offset
length-remaining i = length-drop i.offset i.buf

length-slice : (buf : List ℕ) (b e : ℕ) → e ≤ length buf → length (slice buf b e) ≡ e - b
length-slice buf b e h = omega (arith, length-take (e - b) (drop b buf), length-drop b buf)

drop-length : (i : ChunkIterator) → length i.buf ≤ i.offset → remaining i ≡ []
drop-length i h = empty (remaining i) (omega (arith, length-remaining i))
  where
    empty : (l : List ℕ) → length l ≡ 0 → l ≡ []
    empty [] e = refl
    empty (x ∷ l) e = absurd (omega arith)

next_offset :
    (i : ChunkIterator)
    → IsInside i
    → i.offset < length i.buf
    → ((next i).0.offset ≤ length i.buf)
      × (i.offset < (next i).0.offset)
      × ((next i).0.offset ≤ i.offset + i.chunk_size)
unfolding next
next_offset i h more = ground arith

-- At the end of the buffer there is no chunk. Before it, a chunk is not empty, no longer than the
-- chunk size, and the buffer goes on behind it.
pub next_cases :
    (i : ChunkIterator)
    → IsInside i
    → ((remaining i ≡ []) × ((next i).1 ≡ none))
      ⊎ ((c : List ℕ) × ((next i).1 ≡ some c)
          × (c ++ remaining (next i).0 ≡ remaining i)
          × (0 < length c)
          × (length c ≤ i.chunk_size)
          × IsInside (next i).0
          × ((next i).0.chunk_size ≡ i.chunk_size))
unfolding next
next_cases i h = elim (dec_lt i.offset (length i.buf)) [
  | no end ↦ inl (drop-length i (omega arith), ground arith)
  | yes more ↦
      let (inside, past, size) = next_offset i h more in
      inr (
        slice i.buf i.offset (next i).0.offset,
        ground arith,
        slice-append i.buf i.offset (next i).0.offset (omega arith),
        omega (arith, length-slice i.buf i.offset (next i).0.offset),
        omega (arith, length-slice i.buf i.offset (next i).0.offset),
        ground arith,
        refl,
      )
]

abbrev pub concat : List (List ℕ) → List ℕ
concat [] = []
concat (c ∷ cs) = c ++ concat cs

-- No chunk is empty or longer than `n`.
abbrev pub Sized : ℕ → List (List ℕ) → Type 0
Sized n [] = Unit {0}
Sized n (c ∷ cs) = (0 < length c) × (length c ≤ n) × Sized n cs

chunks-end : (fuel : ℕ) (i : ChunkIterator) → (next i).1 ≡ none → chunks (suc fuel) i ≡ []
unfolding chunks
chunks-end fuel i e = rw (e, chunks)

chunks-more :
    (fuel : ℕ) (i : ChunkIterator) (c : List ℕ)
    → (next i).1 ≡ some c
    → chunks (suc fuel) i ≡ c ∷ chunks fuel (next i).0
unfolding chunks
chunks-more fuel i c e = rw (e, chunks)

-- With more fuel than there are bytes left, the chunks are the rest of the buffer in order.
pub chunks-concat :
    (fuel : ℕ) (i : ChunkIterator)
    → IsInside i
    → length (remaining i) < fuel
    → (concat (chunks fuel i) ≡ remaining i) × Sized i.chunk_size (chunks fuel i)
chunks-concat zero i h f = absurd (omega arith)
chunks-concat (suc fuel) i h f = elim (next_cases i h) [
  | inl (e, n) ↦ rw (chunks-end fuel i n) (sym e, tt)
  | inr (c, n, join, pos, small, inside, same) ↦
      let (rest, sized) =
        chunks-concat fuel (next i).0 inside
          (omega (arith, ap length join, length-append c (remaining (next i).0))) in
      rw (chunks-more fuel i c n) (
        ap (◌++◌ c) rest ∙ join,
        (pos, small, subst (λ (k : ℕ). Sized k (chunks fuel (next i).0)) same sized),
      )
]
