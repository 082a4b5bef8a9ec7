-- ===== src/Tests/Bandwidth.antt =====
-- Concrete inputs for internal/lambda/core/bandwidthlimiter.
use lambda_runtime_init.Base.{
  ℕ, ◌+◌, ◌≤◌, ◌≡◌, refl, false, Option, none, some, List, [], ◌∷◌, ◌++◌, arith, length,
}
use lambda_runtime_init.Base.Int.{pos, ◌<ℤ◌}
use lambda_runtime_init.Bandwidth.Bucket.{Bucket, IsValid, new_bucket, produce_tokens}
use lambda_runtime_init.Bandwidth.Bucket.Rate.{
  produce_tokens-overflow, run_bucket-rate, total, passed, added, tokens, run, produces, consumes,
}
use lambda_runtime_init.Bandwidth.Chunks.{ChunkIterator, chunks}
use lambda_runtime_init.Bandwidth.Chunks.Laws.{chunks-concat, concat, Sized}
use lambda_runtime_init.Bandwidth.Throttler.{WriteError, Tick}
use lambda_runtime_init.Bandwidth.Writer.{BandwidthLimitingWriter, write_limited}
use lambda_runtime_init.Bandwidth.Writer.Limited.{Completes}
use lambda_runtime_init.Bandwidth.Writer.Complete.{write_limited-Completes}

abbrev bucket : Bucket
bucket = record {
  capacity = pos 4;
  token_count = pos 1;
  refill_number = pos 3;
  refill_interval = pos 1;
}

bucket-IsValid : IsValid bucket
bucket-IsValid = ground arith

made : new_bucket (pos 4) (pos 1) (pos 3) (pos 1) ≡ some bucket
unfolding new_bucket
made = refl

run_bucket-rate_example :
    (total passed bucket (produces ∷ consumes 3 ∷ consumes 2 ∷ [])
        + tokens (run bucket (produces ∷ consumes 3 ∷ consumes 2 ∷ []))
      ≤ 1 + total added bucket (produces ∷ consumes 3 ∷ consumes 2 ∷ []))
    × IsValid (run bucket (produces ∷ consumes 3 ∷ consumes 2 ∷ []))
run_bucket-rate_example =
    run_bucket-rate bucket (produces ∷ consumes 3 ∷ consumes 2 ∷ []) bucket-IsValid

-- It has 1 token less than the largest int64, and gets 2.
abbrev huge : Bucket
huge = record {
  capacity = pos 9223372036854775807;
  token_count = pos 9223372036854775806;
  refill_number = pos 2;
  refill_interval = pos 1;
}

produce_tokens-overflow_example : (produce_tokens huge).token_count <ℤ pos 0
produce_tokens-overflow_example =
    produce_tokens-overflow huge (ground arith) (ground arith) (omega arith) (omega arith)
      (omega arith)

abbrev five : ChunkIterator
five = record { buf = 1 ∷ 2 ∷ 3 ∷ 4 ∷ 5 ∷ []; chunk_size = 2; offset = 0 }

chunks-concat_example : (concat (chunks 6 five) ≡ 1 ∷ 2 ∷ 3 ∷ 4 ∷ 5 ∷ []) × Sized 2 (chunks 6 five)
chunks-concat_example = chunks-concat 6 five (omega arith, omega arith) (omega arith)

-- A writer that keeps what it is given.
abbrev keep : List ℕ → List ℕ → List ℕ × ℕ × Option WriteError
keep w p = (w ++ p, length p, none)

abbrev tick : Tick
tick = record { wait_start = 10; missed = 0; produced = 11 }

abbrev limited : BandwidthLimitingWriter (List ℕ)
limited = record {
  w = [];
  th = record {
    b = bucket;
    running = false;
    metrics = record {
      start_reading = 0;
      finish_reading = 0;
      time_shaped_ns = 0;
      produced_bytes = 0;
      outbound_throughput_bps = pos 0;
    };
  };
}

abbrev ticks : List Tick
ticks = tick ∷ tick ∷ tick ∷ tick ∷ tick ∷ []

write_limited-Completes_example :
    Completes
      (λ (w : List ℕ). w)
      4
      []
      0
      (1 ∷ 2 ∷ 3 ∷ 4 ∷ 5 ∷ [])
      ticks
      (write_limited keep 9 ticks limited (1 ∷ 2 ∷ 3 ∷ 4 ∷ 5 ∷ []))
write_limited-Completes_example =
    write_limited-Completes keep (λ (w : List ℕ). w) (λ w p. (refl, refl, refl)) 9 ticks limited
      (1 ∷ 2 ∷ 3 ∷ 4 ∷ 5 ∷ []) bucket-IsValid (omega arith) (omega arith)
