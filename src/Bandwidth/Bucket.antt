-- ===== src/Bandwidth/Bucket.antt =====
-- internal/lambda/core/bandwidthlimiter/throttler.go: `Bucket`. Its methods run under its mutex.
-- The counts are int64.
pub mod Rate
use lambda_runtime_init.Base.{
  ℕ, zero, suc, ◌+◌, ◌*◌, ◌^◌, ◌≤◌, ◌<◌, ◌≡◌, refl, ◌⊎◌, Bool, true, false, ◌||◌, Option, none,
  some, List, [], ◌∷◌, arith, if◌then◌else◌,
}
use lambda_runtime_init.Base.Int.{
  ℤ, pos, negsuc, pos_part, neg_part, ◌+ℤ◌, ◌-ℤ◌, ◌≤ℤ◌, ◌<ℤ◌, ltb_ℤ, leb_ℤ, wrap64, wrap64-eq,
}

pub record Bucket : Type 0 where
  pub capacity : ℤ
  pub token_count : ℤ
  pub refill_number : ℤ
  pub refill_interval : ℤ

-- `none` is the error about invalid parameters.
unfoldable pub new_bucket : ℤ → ℤ → ℤ → ℤ → Option Bucket
new_bucket capacity initial_token_count refill_number refill_interval =
    if leb_ℤ capacity (pos 0)
      || ltb_ℤ initial_token_count (pos 0)
      || leb_ℤ refill_number (pos 0)
      || leb_ℤ refill_interval (pos 0)
      || ltb_ℤ capacity initial_token_count
    then none
    else some (record {
      capacity = capacity;
      token_count = initial_token_count;
      refill_number = refill_number;
      refill_interval = refill_interval;
    })

unfoldable pub min64 : ℤ → ℤ → ℤ
min64 a b = if ltb_ℤ a b then a else b

unfoldable pub produce_tokens : Bucket → Bucket
unfolding min64 wrap64 ◌+ℤ◌
produce_tokens b =
    if ltb_ℤ b.token_count b.capacity
    then record b { token_count = min64 (wrap64 (b.token_count +ℤ b.refill_number)) b.capacity }
    else b

unfoldable pub consume_tokens : ℤ → Bucket → Bucket × Bool
unfolding wrap64 ◌-ℤ◌
consume_tokens n b =
    if leb_ℤ n b.token_count
    then (record b { token_count = wrap64 (b.token_count -ℤ n) }, true)
    else (b, false)

-- What `NewBucket` checks, and that a refill does not overflow.
pub record IsValid (b : Bucket) : Type 0 where
  pub tokens_nonneg : pos 0 ≤ℤ b.token_count
  pub tokens_capped : b.token_count ≤ℤ b.capacity
  pub refills : pos 0 <ℤ b.refill_number
  pub fits : pos_part b.capacity + pos_part b.refill_number < 2 ^ 63

produce_tokens-IsValid : (b : Bucket) → IsValid b → IsValid (produce_tokens b)
unfolding produce_tokens
produce_tokens-IsValid b v = ground arith
