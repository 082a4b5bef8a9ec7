-- ===== src/Core/DirectInvoke/Ranges.antt =====
-- The settings of a direct invoke stay in range, and fit the bandwidth limiter.
use lambda_runtime_init.Base.{
  ℕ, ◌<◌, ◌≡◌, refl, sym, subst, Bool, Option, none, some, String, arith, Option-cases, inl, inr,
  ◌*◌, ◌/◌,
}
use lambda_runtime_init.Base.Int.{ℤ, pos, negsuc, pos_part, ◌≤ℤ◌, wrap64}
use lambda_runtime_init.Bandwidth.Bucket.{Bucket, IsValid, new_bucket}
use lambda_runtime_init.Bandwidth.Bucket.Rate.{cap, refill, tokens}
use lambda_runtime_init.Core.DirectInvoke.{
  streaming, Refusal, Settings, CustomerHeaders, Request, Token, World, Part, ◌>>◌, continue,
  initial_settings, streamed_bucket, quot, times, refuse,
}
use lambda_runtime_init.Core.DirectInvoke.Receive.{
  receive_max_payload_size, receive_mode, receive_rate, receive_burst, receive_streaming,
  receive_if_streaming, receive_headers, check_token, receive_direct_invoke, finish, load, announce,
  add_trailers,
}

-- The bounds that `interop` names: the bandwidth between 32 KiB and 64 MiB a second, bursts between
-- 32 KiB and 64 MiB, and a size of -1 or more.
pub record InRange (s : Settings) : Type 0 where
  pub size : negsuc 0 ≤ℤ s.max_direct_response_size
  pub rate_lo : pos 32_768 ≤ℤ s.response_bandwidth_rate
  pub rate_hi : s.response_bandwidth_rate ≤ℤ pos 67_108_864
  pub burst_lo : pos 32_768 ≤ℤ s.response_bandwidth_burst_size
  pub burst_hi : s.response_bandwidth_burst_size ≤ℤ pos 67_108_864

pub initial-InRange : (m : ℕ) → InRange (initial_settings m)
unfolding initial_settings
initial-InRange m = ground arith

-- A part that keeps the settings in range.
abbrev Keeps : Part → Type 0
Keeps p = (w : World) → InRange w.settings → InRange (p w).0.settings

continue-Keeps :
    (q : Part) (r : World × Option Refusal)
    → Keeps q
    → InRange r.0.settings
    → InRange (continue q r).0.settings
continue-Keeps q (w, none) kq v = kq w v
continue-Keeps q (w, some e) kq v = v

>>-Keeps : (p q : Part) → Keeps p → Keeps q → Keeps (p >> q)
>>-Keeps p q kp kq w v = continue-Keeps q (p w) kq (kp w v)

module _ (parse_int : String → Option ℤ) (equal_fold : String → String → Bool) where
  receive_max_payload_size-Keeps :
      (m : ℕ) (t : String) → Keeps (receive_max_payload_size parse_int m t)
  unfolding receive_max_payload_size
  receive_max_payload_size-Keeps m t w v = ground arith

  receive_rate-Keeps : (t : String) → Keeps (receive_rate parse_int t)
  unfolding receive_rate
  receive_rate-Keeps t w v = ground arith

  receive_burst-Keeps : (t : String) → Keeps (receive_burst parse_int t)
  unfolding receive_burst
  receive_burst-Keeps t w v = ground arith

  receive_mode-Keeps : (t : String) → Keeps (receive_mode equal_fold t)
  unfolding receive_mode
  receive_mode-Keeps t w v = ground arith

  check_token-Keeps : (r : Request) (t : Token) (now : ℤ) → Keeps (check_token r t now)
  unfolding check_token
  check_token-Keeps r t now w v = ground arith

  receive_streaming-Keeps : (r : Request) → Keeps (receive_streaming parse_int r)
  unfolding receive_streaming
  receive_streaming-Keeps r w v =
      let a = receive_rate-Keeps r.response_bandwidth_rate in
      let b = receive_burst-Keeps r.response_bandwidth_burst_size in
      >>-Keeps (receive_rate parse_int r.response_bandwidth_rate)
        (receive_burst parse_int r.response_bandwidth_burst_size) a b
        (record {
          settings = record w.settings { invoke_response_mode = streaming };
          response = add_trailers w.response;
        })
        (ground arith)

  receive_if_streaming-Keeps : (r : Request) → Keeps (receive_if_streaming parse_int r)
  unfolding receive_if_streaming
  receive_if_streaming-Keeps r w v = ground (arith, receive_streaming-Keeps r w v)

  receive_headers-Keeps :
      (decode : String → Option CustomerHeaders) (m : ℕ) (r : Request)
      → Keeps (receive_headers parse_int equal_fold decode m r)
  unfolding receive_headers
  receive_headers-Keeps decode m r =
      >>-Keeps (receive_max_payload_size parse_int m r.max_payload_size)
        (receive_mode equal_fold r.invoke_response_mode >> receive_if_streaming parse_int r)
        (receive_max_payload_size-Keeps m r.max_payload_size)
        (>>-Keeps (receive_mode equal_fold r.invoke_response_mode)
          (receive_if_streaming parse_int r) (receive_mode-Keeps r.invoke_response_mode)
          (receive_if_streaming-Keeps r))

pub finish-settings :
    (r : Request) (t : Token) (now : ℤ) (c : CustomerHeaders) (x : World × Option Refusal)
    → (finish r t now c x).0.settings ≡ x.0.settings
finish-settings r t now c (w, none) = refl
finish-settings r t now c (w, some e) = refl

-- Whatever a request says, and whether it is refused or not, it leaves the settings in range.
pub receive-InRange :
    (parse_int : String → Option ℤ) (equal_fold : String → String → Bool)
    (decode : String → Option CustomerHeaders) (m : ℕ) (r : Request) (t : Token) (now : ℤ)
    (w : World)
    → InRange w.settings
    → InRange (receive_direct_invoke parse_int equal_fold decode m r t now w).0.settings
unfolding receive_direct_invoke refuse
receive-InRange parse_int equal_fold decode m r t now w v =
    let w' : World = record w { response = announce w.response } in
    let kept =
      >>-Keeps (receive_headers parse_int equal_fold decode m r) (check_token r t now)
        (receive_headers-Keeps parse_int equal_fold decode m r)
        (check_token-Keeps parse_int equal_fold r t now) w' v in
    elim (Option-cases (load decode r.customer_headers)) [
      | inl e ↦ rw (e, receive_direct_invoke) v
      | inr (c, e) ↦
          rw (e, receive_direct_invoke)
            (subst InRange
              (sym (
                finish-settings r t now c
                  ((receive_headers parse_int equal_fold decode m r >> check_token r t now) w')))
              kept)
    ]

streamed_refill :
    (a : ℤ)
    → pos 32_768 ≤ℤ a
    → a ≤ℤ pos 67_108_864
    → quot (times a 125) 1000 ≡ pos (pos_part a * 125 / 1000)
unfolding wrap64
streamed_refill (pos n) lo hi = ground arith
streamed_refill (negsuc n) lo hi = absurd (omega arith)

-- With settings in range the bucket of a streamed response is made, is valid, starts full, and has a
-- positive capacity and refill.
pub streamed_bucket-IsValid :
    (s : Settings)
    → InRange s
    → (b : Bucket) × (streamed_bucket s ≡ some b)
      × IsValid b
      × (tokens b ≡ cap b)
      × (0 < cap b)
      × (0 < refill b)
unfolding streamed_bucket new_bucket
streamed_bucket-IsValid s v =
    let e = streamed_refill s.response_bandwidth_rate v.rate_lo v.rate_hi in
    (
      record {
        capacity = s.response_bandwidth_burst_size;
        token_count = s.response_bandwidth_burst_size;
        refill_number = quot (times s.response_bandwidth_rate 125) 1000;
        refill_interval = pos 125_000_000;
      },
      ground arith,
      ground arith,
      refl,
      ground arith,
      ground arith,
    )
