-- ===== src/Bandwidth/Bucket/Rate.antt =====
-- What passes a bucket, over any history of refills and requests.
use lambda_runtime_init.Base.{
  ℕ, ◌+◌, ◌-◌, ◌^◌, ◌≤◌, ◌<◌, ◌≡◌, some, List, [], ◌∷◌, min, arith, leb, if◌then◌else◌,
}
use lambda_runtime_init.Base.Int.{ℤ, pos, pos_part, ◌≤ℤ◌, ◌<ℤ◌}
use lambda_runtime_init.Bandwidth.Bucket.{
  Bucket, IsValid, new_bucket, produce_tokens, consume_tokens,
}

-- The tokens and the size of a refill of a valid bucket, as numbers.
abbrev pub tokens : Bucket → ℕ
tokens b = pos_part b.token_count

abbrev pub refill : Bucket → ℕ
refill b = pos_part b.refill_number

abbrev pub cap : Bucket → ℕ
cap b = pos_part b.capacity

-- A bucket that `NewBucket` makes is valid, if a refill of a full bucket fits an int64.
pub new_bucket-IsValid :
    (c t r i : ℤ) (b : Bucket)
    → pos_part c + pos_part r < 2 ^ 63
    → new_bucket c t r i ≡ some b
    → IsValid b
unfolding new_bucket
new_bucket-IsValid c t r i b fits h = ground arith

pub produce_tokens_lem :
    (b : Bucket)
    → IsValid b
    → IsValid (produce_tokens b)
      × (tokens (produce_tokens b) ≡ min (tokens b + refill b) (cap b))
      × (refill (produce_tokens b) ≡ refill b)
      × (cap (produce_tokens b) ≡ cap b)
unfolding produce_tokens
produce_tokens_lem b v = ground arith

-- A request for `n` tokens of a valid bucket is granted exactly if there are as many, and takes them;
-- a refused one takes none.
pub consume_tokens_lem :
    (b : Bucket) (n : ℕ)
    → IsValid b
    → let r = consume_tokens (pos n) b in
      IsValid r.0
      × (r.1 ≡ leb n (tokens b))
      × (tokens r.0 ≡ (if leb n (tokens b) then tokens b - n else tokens b))
      × (refill r.0 ≡ refill b)
      × (cap r.0 ≡ cap b)
unfolding consume_tokens
consume_tokens_lem b n v = ground arith

-- Where the tokens, which are below the capacity, and a refill add up to 2 ^ 63 or more, the refill
-- leaves a negative number of tokens.
pub produce_tokens-overflow :
    (b : Bucket)
    → pos 0 ≤ℤ b.token_count
    → b.token_count <ℤ b.capacity
    → tokens b < 2 ^ 63
    → refill b < 2 ^ 63
    → 2 ^ 63 ≤ tokens b + refill b
    → (produce_tokens b).token_count <ℤ pos 0
unfolding produce_tokens
produce_tokens-overflow b lo hi t r over = ground arith

pub data Op : Type 0 where
  produces : Op
  consumes : ℕ → Op

abbrev pub step : Bucket → Op → Bucket
step b produces = produce_tokens b
step b (consumes n) = (consume_tokens (pos n) b).0

-- The bytes that one step lets pass, and the tokens that it may add.
abbrev pub passed : Bucket → Op → ℕ
passed b produces = 0
passed b (consumes n) = if (consume_tokens (pos n) b).1 then n else 0

abbrev pub added : Bucket → Op → ℕ
added b produces = refill b
added b (consumes n) = 0

abbrev pub total : (Bucket → Op → ℕ) → Bucket → List Op → ℕ
total w b [] = 0
total w b (o ∷ os) = w b o + total w (step b o) os

pub run : Bucket → List Op → Bucket
run b [] = b
run b (o ∷ os) = run (step b o) os

step-rate :
    (b : Bucket) (o : Op)
    → IsValid b
    → IsValid (step b o) × (passed b o + tokens (step b o) ≤ tokens b + added b o)
step-rate b produces v = let (v', e, _, _) = produce_tokens_lem b v in (v', omega (arith, e))
step-rate b (consumes n) v =
    let (v', g, e, _, _) = consume_tokens_lem b n v in (v', ground (arith, g, e))

-- A valid bucket limits the rate: the bytes that pass in any history, with the tokens left, are no more
-- than the tokens at the start and those of the refills; and the tokens stay within the capacity.
pub run_bucket-rate :
    (b : Bucket) (os : List Op)
    → IsValid b
    → (total passed b os + tokens (run b os) ≤ tokens b + total added b os) × IsValid (run b os)
unfolding run
run_bucket-rate b [] v = (omega arith, v)
run_bucket-rate b (o ∷ os) v =
    let (v', now) = step-rate b o v in
    let (later, last) = run_bucket-rate (step b o) os v' in (omega arith, last)
