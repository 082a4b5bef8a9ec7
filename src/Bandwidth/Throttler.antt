-- ===== src/Bandwidth/Throttler.antt =====
-- internal/lambda/core/bandwidthlimiter/throttler.go: `Throttler`. The underlying `io.Writer` is a
-- parameter: its state and what one call of `Write` does.
use lambda_runtime_init.Base.{
  ℕ, zero, suc, ◌+◌, ◌-◌, ◌*◌, ◌/◌, Bool, true, false, Option, none, some, List, [], ◌∷◌, String,
  length, ltb, if◌then◌else◌,
}
use lambda_runtime_init.Base.Int.{ℤ, pos, negsuc, wrap64, ltb_ℤ}
use lambda_runtime_init.Bandwidth.Bucket.{Bucket, produce_tokens, consume_tokens}

pub data WriteError : Type 0 where
  buffer_size_too_large : WriteError
  writer_failed : String → WriteError

-- `interop.InvokeResponseMetrics`, the fields that the throttler writes; times are nanoseconds.
pub record Metrics : Type 0 where
  pub start_reading : ℕ
  pub finish_reading : ℕ
  pub time_shaped_ns : ℕ
  pub produced_bytes : ℕ
  pub outbound_throughput_bps : ℤ

pub record Throttler : Type 0 where
  pub b : Bucket
  pub running : Bool
  pub metrics : Metrics

-- `none` for a nil bucket, which is an error.
unfoldable pub new_throttler : Option Bucket → Option Throttler
new_throttler none = none
new_throttler (some b) = some (record {
  b = b;
  running = false;
  metrics = record {
    start_reading = 0;
    finish_reading = 0;
    time_shaped_ns = 0;
    produced_bytes = 0;
    outbound_throughput_bps = pos 0;
  };
})

-- The goroutine that it starts is the list of ticks that a write waits for, below.
unfoldable pub start : ℕ → Throttler → Throttler
start now th =
    if th.running
    then th
    else record th { running = true; metrics = record th.metrics { start_reading = now } }

-- Bytes a millisecond, times 1000; -1 if it took less than a millisecond.
abbrev throughput : ℕ → ℕ → ℤ
throughput bytes duration_ms =
    if ltb 0 duration_ms then wrap64 (pos (bytes / duration_ms * 1000)) else negsuc 0

unfoldable pub stop : ℕ → Throttler → Throttler
unfolding wrap64
stop now th =
    if th.running
    then record th {
      running = false;
      metrics = record th.metrics {
        finish_reading = now;
        outbound_throughput_bps =
            throughput th.metrics.produced_bytes ((now - th.metrics.start_reading) / 1_000_000);
      };
    }
    else th

-- A wait for the producer: when it began, how many refills went unseen, and the time that the
-- refill which ended it was announced with.
pub record Tick : Type 0 where
  pub wait_start : ℕ
  pub missed : ℕ
  pub produced : ℕ

unfoldable pub refill_times : ℕ → Bucket → Bucket
refill_times zero b = b
refill_times (suc n) b = refill_times n (produce_tokens b)

unfoldable pub wait : Tick → Throttler → Throttler
unfolding refill_times
wait t th = record th {
  b = refill_times (suc t.missed) th.b;
  metrics = record th.metrics {
    time_shaped_ns = th.metrics.time_shaped_ns + (t.produced - t.wait_start);
  };
}

-- A write that is over, with the ticks that it left; or it waits when there are no more.
pub data Written (W : Type 0) : Type 0 where
  waiting : Written W
  wrote : Throttler → W → ℕ → Option WriteError → List Tick → Written W

module _ {W : Type 0} (write : W → List ℕ → W × ℕ × Option WriteError) where
  abbrev pub pass : Throttler → W → List ℕ → List Tick → Written W
  pass th w p ts =
      let (w', written, err) = write w p in
      wrote
        (record th {
          metrics = record th.metrics { produced_bytes = th.metrics.produced_bytes + written };
        })
        w' written err ts

  -- The loop of `bandwidthLimitingWrite`, by the ticks.
  unfoldable pub limiting_loop : List Tick → Throttler → W → List ℕ → Written W
  limiting_loop [] th w p =
      let (b, granted) = consume_tokens (pos (length p)) th.b in
      if granted then pass (record th { b = b }) w p [] else waiting
  limiting_loop (t ∷ ts) th w p =
      let (b, granted) = consume_tokens (pos (length p)) th.b in
      let rest = limiting_loop ts (wait t (record th { b = b })) w p in
      if granted then pass (record th { b = b }) w p (t ∷ ts) else rest

  unfoldable pub bandwidth_limiting_write : List Tick → Throttler → W → List ℕ → Written W
  unfolding limiting_loop
  bandwidth_limiting_write ts th w p =
      if ltb_ℤ th.b.capacity (pos (length p))
      then wrote th w 0 (some buffer_size_too_large) ts
      else limiting_loop ts th w p
