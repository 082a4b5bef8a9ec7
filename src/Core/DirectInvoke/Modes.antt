-- ===== src/Core/DirectInvoke/Modes.antt =====
-- What a request inherits from the ones before it: the response mode.
use lambda_runtime_init.Base.{
  ℕ, ◌≡◌, refl, ap, ◌∙◌, Bool, List, [], ◌∷◌, Option, none, some, String, arith, Option-cases, inl,
  inr,
}
use text.Mathlib.TextEquality.{eq_iff}
use lambda_runtime_init.Base.Int.{ℤ}
use lambda_runtime_init.Core.DirectInvoke.{
  streaming, Refusal, Settings, CustomerHeaders, Request, Token, Invoke, World, Part, ◌>>◌,
  continue, refuse,
}
use lambda_runtime_init.Core.DirectInvoke.Receive.{
  receive_max_payload_size, receive_mode, receive_rate, receive_burst, receive_streaming,
  receive_if_streaming, receive_headers, check_token, receive_direct_invoke, load, announce,
  add_trailers, Received, accepted, refused,
}
use lambda_runtime_init.Core.DirectInvoke.Accepted.{receive-Matches}
use lambda_runtime_init.Core.DirectInvoke.Ranges.{finish-settings}

-- A part under which a streaming mode stays.
abbrev Stays : Part → Type 0
Stays p =
    (w : World)
    → w.settings.invoke_response_mode ≡ streaming
    → (p w).0.settings.invoke_response_mode ≡ streaming

continue-Stays :
    (q : Part) (r : World × Option Refusal)
    → Stays q
    → r.0.settings.invoke_response_mode ≡ streaming
    → (continue q r).0.settings.invoke_response_mode ≡ streaming
continue-Stays q (w, none) k h = k w h
continue-Stays q (w, some e) k h = h

>>-Stays : (p q : Part) → Stays p → Stays q → Stays (p >> q)
>>-Stays p q a b w h = continue-Stays q (p w) b (a w h)

module _ (parse_int : String → Option ℤ) (equal_fold : String → String → Bool) where
  receive_max_payload_size-Stays :
      (m : ℕ) (t : String) → Stays (receive_max_payload_size parse_int m t)
  unfolding receive_max_payload_size
  receive_max_payload_size-Stays m t w v = ground arith

  receive_rate-Stays : (t : String) → Stays (receive_rate parse_int t)
  unfolding receive_rate
  receive_rate-Stays t w v = ground arith

  receive_burst-Stays : (t : String) → Stays (receive_burst parse_int t)
  unfolding receive_burst
  receive_burst-Stays t w v = ground arith

  receive_mode-Stays : (t : String) → t ≡ "" → Stays (receive_mode equal_fold t)
  unfolding receive_mode
  receive_mode-Stays t e w v = ground (arith, eq_iff t "")

  check_token-Stays : (r : Request) (t : Token) (now : ℤ) → Stays (check_token r t now)
  unfolding check_token
  check_token-Stays r t now w v = ground arith

  receive_streaming-Stays : (r : Request) → Stays (receive_streaming parse_int r)
  unfolding receive_streaming
  receive_streaming-Stays r w v =
      >>-Stays (receive_rate parse_int r.response_bandwidth_rate)
        (receive_burst parse_int r.response_bandwidth_burst_size)
        (receive_rate-Stays r.response_bandwidth_rate)
        (receive_burst-Stays r.response_bandwidth_burst_size)
        (record {
          settings = record w.settings { invoke_response_mode = streaming };
          response = add_trailers w.response;
        })
        refl

  receive_if_streaming-Stays : (r : Request) → Stays (receive_if_streaming parse_int r)
  unfolding receive_if_streaming
  receive_if_streaming-Stays r w v = ground (arith, receive_streaming-Stays r w v)

  receive_headers-Stays :
      (decode : String → Option CustomerHeaders) (m : ℕ) (r : Request)
      → r.invoke_response_mode ≡ ""
      → Stays (receive_headers parse_int equal_fold decode m r)
  unfolding receive_headers
  receive_headers-Stays decode m r e =
      >>-Stays (receive_max_payload_size parse_int m r.max_payload_size)
        (receive_mode equal_fold r.invoke_response_mode >> receive_if_streaming parse_int r)
        (receive_max_payload_size-Stays m r.max_payload_size)
        (>>-Stays (receive_mode equal_fold r.invoke_response_mode)
          (receive_if_streaming parse_int r) (receive_mode-Stays r.invoke_response_mode e)
          (receive_if_streaming-Stays r))

receive-Stays :
    (parse_int : String → Option ℤ) (equal_fold : String → String → Bool)
    (decode : String → Option CustomerHeaders) (m : ℕ) (r : Request) (t : Token) (now : ℤ)
    (w : World)
    → w.settings.invoke_response_mode ≡ streaming
    → r.invoke_response_mode ≡ ""
    → (receive_direct_invoke parse_int equal_fold decode m r t now
        w).0.settings.invoke_response_mode
      ≡ streaming
unfolding receive_direct_invoke refuse
receive-Stays parse_int equal_fold decode m r t now w v none_given =
    let w' : World = record w { response = announce w.response } in
    let kept =
      >>-Stays (receive_headers parse_int equal_fold decode m r) (check_token r t now)
        (receive_headers-Stays parse_int equal_fold decode m r none_given)
        (check_token-Stays parse_int equal_fold r t now) w' v in
    elim (Option-cases (load decode r.customer_headers)) [
      | inl e ↦ rw (e, receive_direct_invoke) v
      | inr (c, e) ↦
          rw (e, receive_direct_invoke)
            (ap (λ (s : Settings). s.invoke_response_mode)
                (finish-settings r t now c
                  ((receive_headers parse_int equal_fold decode m r >> check_token r t now) w'))
              ∙ kept)
    ]

-- One request after the other, each with its token and the time at which it comes.
abbrev pub receive_all :
    (String → Option ℤ)
    → (String → String → Bool)
    → (String → Option CustomerHeaders)
    → ℕ
    → List (Request × Token × ℤ)
    → World
    → World × List Received
receive_all parse_int equal_fold decode m [] w = (w, [])
receive_all parse_int equal_fold decode m ((r, t, now) ∷ rs) w =
    let (w', x) = receive_direct_invoke parse_int equal_fold decode m r t now w in
    let (last, xs) = receive_all parse_int equal_fold decode m rs w' in (last, x ∷ xs)

-- No request has a header for the mode.
abbrev pub NoMode : List (Request × Token × ℤ) → Type 0
NoMode [] = Unit {0}
NoMode ((r, t, now) ∷ rs) = (r.invoke_response_mode ≡ "") × NoMode rs

-- Every invoke among them that was accepted is streamed.
abbrev IsStreamed : Received → Type 0
IsStreamed (accepted i) = i.invoke_response_mode ≡ streaming
IsStreamed (refused e) = Unit {0}

abbrev pub AllStreamed : List Received → Type 0
AllStreamed [] = Unit {0}
AllStreamed (x ∷ xs) = IsStreamed x × AllStreamed xs

received-IsStreamed :
    (x : Received)
    → ((i : Invoke) → x ≡ accepted i → i.invoke_response_mode ≡ streaming)
    → IsStreamed x
received-IsStreamed (accepted i) h = h i refl
received-IsStreamed (refused e) h = tt

one-IsStreamed :
    (parse_int : String → Option ℤ) (equal_fold : String → String → Bool)
    (decode : String → Option CustomerHeaders) (m : ℕ) (r : Request) (t : Token) (now : ℤ)
    (w : World)
    → w.settings.invoke_response_mode ≡ streaming
    → r.invoke_response_mode ≡ ""
    → IsStreamed (receive_direct_invoke parse_int equal_fold decode m r t now w).1
one-IsStreamed parse_int equal_fold decode m r t now w v n =
    received-IsStreamed (receive_direct_invoke parse_int equal_fold decode m r t now w).1 (λ i h.
      let (_, _, _, _, _, mode) = receive-Matches parse_int equal_fold decode m r t now w i h in
      mode ∙ receive-Stays parse_int equal_fold decode m r t now w v n)

-- Where the response mode of the process is `Streaming`, and then come any requests of which none has
-- a header for the mode, each of them that is accepted is streamed, and the mode of the process is
-- `Streaming` still: it is not put back to its default.
pub receive_all-streamed :
    (parse_int : String → Option ℤ) (equal_fold : String → String → Bool)
    (decode : String → Option CustomerHeaders) (m : ℕ) (rs : List (Request × Token × ℤ)) (w : World)
    → w.settings.invoke_response_mode ≡ streaming
    → NoMode rs
    → AllStreamed (receive_all parse_int equal_fold decode m rs w).1
      × ((receive_all parse_int equal_fold decode m rs w).0.settings.invoke_response_mode
          ≡ streaming)
receive_all-streamed parse_int equal_fold decode m [] w v n = (tt, v)
receive_all-streamed parse_int equal_fold decode m ((r, t, now) ∷ rs) w v (n, more) =
    let next = (receive_direct_invoke parse_int equal_fold decode m r t now w).0 in
    let stays = receive-Stays parse_int equal_fold decode m r t now w v n in
    let (all, last) = receive_all-streamed parse_int equal_fold decode m rs next stays more in
    ((one-IsStreamed parse_int equal_fold decode m r t now w v n, all), last)
