-- ===== src/Core/DirectInvoke/Refusals.antt =====
-- How a request that is refused is answered.
use lambda_runtime_init.Base.{
  ℕ, ◌≡◌, refl, Bool, true, false, Option, none, some, String, str_eq, arith, if◌then◌else◌,
  Option-cases, inl, inr,
}
use lambda_runtime_init.Base.Dict.{lookup, insert, lookup-insert}
use lambda_runtime_init.Base.Int.{ℤ, pos, negsuc, leb_ℤ}
use lambda_runtime_init.Core.DirectInvoke.{
  streaming, Refusal, Settings, CustomerHeaders, Request, Token, World, Part, ◌>>◌, continue,
  refuse, render_bad_request, error_text, require, optional, number, change, is_absent, respond,
  reservation_expired, invalid_function_version, invalid_reservation_token, invalid_invoke_id,
  invalid_max_payload_size, invalid_response_bandwidth_rate, invalid_response_bandwidth_burst_size,
  invalid_invoke_response_mode, set_max, set_rate, set_burst, between, malformed_customer_headers,
  set_mode,
}
use lambda_runtime_init.Core.DirectInvoke.Receive.{
  receive_max_payload_size, receive_mode, receive_rate, receive_burst, receive_streaming,
  receive_if_streaming, receive_headers, check_token, receive_direct_invoke, Received, accepted,
  refused, finish, load, echo, mode_or_refuse, convert_to_invoke_response_mode, is_streaming,
  announce, add_trailers,
}

-- A request that is refused is answered with status 400 and the error's text, and any other has no
-- status yet.
abbrev Answered : World × Option Refusal → Type 0
Answered (w, none) = w.response.status ≡ none
Answered (w, some e) =
    (w.response.status ≡ some 400) × (lookup "Error-Type" w.response.headers ≡ some (error_text e))

abbrev Answers : Part → Type 0
Answers p = (w : World) → w.response.status ≡ none → Answered (p w)

refuse-Answers : (e : Refusal) → Answers (refuse e)
unfolding refuse render_bad_request
refuse-Answers e w h = (
  refl,
  ground (
    arith,
    lookup-insert "End-Of-Response" "Error-Type" "Complete"
        (insert "Error-Type" (error_text e) w.response.headers),
    lookup-insert "Error-Type" "Error-Type" (error_text e) w.response.headers,
  ),
)

continue-Answers :
    (q : Part) (r : World × Option Refusal) → Answers q → Answered r → Answered (continue q r)
continue-Answers q (w, none) a h = a w h
continue-Answers q (w, some e) a h = h

>>-Answers : (p q : Part) → Answers p → Answers q → Answers (p >> q)
>>-Answers p q a b w h = continue-Answers q (p w) b (a w h)

if-Answered :
    (b : Bool) (x y : World × Option Refusal)
    → Answered x
    → Answered y
    → Answered (if b then x else y)
if-Answered true x y h k = h
if-Answered false x y h k = k

require-Answers : (ok : Bool) (e : Refusal) → Answers (require ok e)
require-Answers true e w h = h
require-Answers false e w h = refuse-Answers e w h

optional-Answers : (text : String) (p : Part) → Answers p → Answers (optional text p)
optional-Answers text p a w h = if-Answered (is_absent text) (w, none) (p w) h (a w h)

number-Answers :
    (o : Option ℤ) (ok : ℤ → Bool) (set : ℤ → Settings → Settings) (e : Refusal)
    → Answers (number o ok set e)
number-Answers none ok set e w h = refuse-Answers e w h
number-Answers (some n) ok set e w h =
    if-Answered (ok n) (change (set n) w) (refuse e w) h (refuse-Answers e w h)

require->> :
    (ok : Bool) (e : Refusal) (q : Part) (w : World)
    → w.response.status ≡ none
    → Answered (q w)
    → Answered ((require ok e >> q) w)
unfolding refuse
require->> true e q w h a = a
require->> false e q w h a = refuse-Answers e w h

check_token-Answers : (r : Request) (t : Token) (now : ℤ) → Answers (check_token r t now)
unfolding check_token
check_token-Answers r t now w h =
    let last : Part = respond (echo t) in
    let fourth : Part = require (leb_ℤ now t.invack_deadline_ns) reservation_expired >> last in
    let third : Part =
      require (str_eq r.version_id t.version_id) invalid_function_version >> fourth in
    let second : Part =
      require (str_eq r.reservation_token t.reservation_token) invalid_reservation_token >> third in
    require->> (str_eq r.invoke_id t.invoke_id) invalid_invoke_id second w h (
      require->> (str_eq r.reservation_token t.reservation_token) invalid_reservation_token third w
        h
        (require->> (str_eq r.version_id t.version_id) invalid_function_version fourth w h
          (require->> (leb_ℤ now t.invack_deadline_ns) reservation_expired last w h h)))

module _ (parse_int : String → Option ℤ) (equal_fold : String → String → Bool)
    (decode : String → Option CustomerHeaders) (m : ℕ) where
  receive_mode-Answers : (text : String) → Answers (receive_mode equal_fold text)
  unfolding receive_mode
  receive_mode-Answers text =
      optional-Answers text (mode_or_refuse (convert_to_invoke_response_mode equal_fold text))
        λ w h. elim (Option-cases (convert_to_invoke_response_mode equal_fold text)) [
          | inl e ↦ rw e (refuse-Answers invalid_invoke_response_mode w h)
          | inr (mode, e) ↦ rw e h
        ]

  receive_max_payload_size-Answers :
      (text : String) → Answers (receive_max_payload_size parse_int m text)
  unfolding receive_max_payload_size
  receive_max_payload_size-Answers text w h =
      optional-Answers text
        (number (parse_int text) (leb_ℤ (negsuc 0)) set_max invalid_max_payload_size)
        (number-Answers (parse_int text) (leb_ℤ (negsuc 0)) set_max invalid_max_payload_size)
        (change (set_max (pos m)) w).0 h

  receive_rate-Answers : (text : String) → Answers (receive_rate parse_int text)
  unfolding receive_rate
  receive_rate-Answers text w h =
      optional-Answers text
        (number (parse_int text) (between 32_768 67_108_864) set_rate
          invalid_response_bandwidth_rate)
        (number-Answers (parse_int text) (between 32_768 67_108_864) set_rate
          invalid_response_bandwidth_rate)
        (change (set_rate (pos 2_097_152)) w).0 h

  receive_burst-Answers : (text : String) → Answers (receive_burst parse_int text)
  unfolding receive_burst
  receive_burst-Answers text w h =
      optional-Answers text
        (number (parse_int text) (between 32_768 67_108_864) set_burst
          invalid_response_bandwidth_burst_size)
        (number-Answers (parse_int text) (between 32_768 67_108_864) set_burst
          invalid_response_bandwidth_burst_size)
        (change (set_burst (pos 6_291_456)) w).0 h

  receive_streaming-Answers : (r : Request) → Answers (receive_streaming parse_int r)
  unfolding receive_streaming
  receive_streaming-Answers r w h =
      >>-Answers (receive_rate parse_int r.response_bandwidth_rate)
        (receive_burst parse_int r.response_bandwidth_burst_size)
        (receive_rate-Answers r.response_bandwidth_rate)
        (receive_burst-Answers r.response_bandwidth_burst_size)
        (change (set_mode streaming) (respond add_trailers w).0).0 h

  receive_if_streaming-Answers : (r : Request) → Answers (receive_if_streaming parse_int r)
  unfolding receive_if_streaming
  receive_if_streaming-Answers r w h =
      if-Answered (is_streaming w.settings) (receive_streaming parse_int r w) (w, none)
        (receive_streaming-Answers r w h) h

  receive_headers-Answers :
      (r : Request) → Answers (receive_headers parse_int equal_fold decode m r)
  unfolding receive_headers
  receive_headers-Answers r =
      >>-Answers (receive_max_payload_size parse_int m r.max_payload_size)
        (receive_mode equal_fold r.invoke_response_mode >> receive_if_streaming parse_int r)
        (receive_max_payload_size-Answers r.max_payload_size)
        (>>-Answers (receive_mode equal_fold r.invoke_response_mode)
          (receive_if_streaming parse_int r) (receive_mode-Answers r.invoke_response_mode)
          (receive_if_streaming-Answers r))

-- The response to a request, by what was received.
abbrev pub Told : World × Received → Type 0
Told (w, accepted i) = w.response.status ≡ none
Told (w, refused e) =
    (w.response.status ≡ some 400) × (lookup "Error-Type" w.response.headers ≡ some (error_text e))

finish-Told :
    (r : Request) (t : Token) (now : ℤ) (c : CustomerHeaders) (x : World × Option Refusal)
    → Answered x
    → Told (finish r t now c x)
finish-Told r t now c (w, none) h = h
finish-Told r t now c (w, some e) h = h

-- Every request that is refused, for whatever reason, is answered with status 400 and the text of
-- its error; one that is accepted has no status yet, as before.
pub receive-Told :
    (parse_int : String → Option ℤ) (equal_fold : String → String → Bool)
    (decode : String → Option CustomerHeaders) (m : ℕ) (r : Request) (t : Token) (now : ℤ)
    (w : World)
    → w.response.status ≡ none
    → Told (receive_direct_invoke parse_int equal_fold decode m r t now w)
unfolding receive_direct_invoke
receive-Told parse_int equal_fold decode m r t now w h =
    let w' : World = record w { response = announce w.response } in
    elim (Option-cases (load decode r.customer_headers)) [
      | inl e ↦ rw (e, receive_direct_invoke) (refuse-Answers malformed_customer_headers w' h)
      | inr (c, e) ↦
          rw (e, receive_direct_invoke)
            (finish-Told r t now c
              ((receive_headers parse_int equal_fold decode m r >> check_token r t now) w')
              (>>-Answers (receive_headers parse_int equal_fold decode m r) (check_token r t now)
                (receive_headers-Answers parse_int equal_fold decode m r)
                (check_token-Answers r t now) w' h))
    ]
