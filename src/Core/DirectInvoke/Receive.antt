-- ===== src/Core/DirectInvoke/Receive.antt =====
-- internal/lambda/core/directinvoke/directinvoke.go: `ReceiveDirectInvoke`, part by part. What
-- `strconv.ParseInt`, `strings.EqualFold` and the decoder of the customer headers answer is a
-- parameter.
use lambda_runtime_init.Base.{
  ℕ, Bool, Option, none, some, [], ◌∷◌, ◌++◌, String, str_eq, if◌then◌else◌,
}
use lambda_runtime_init.Base.Dict.{insert}
use lambda_runtime_init.Base.Int.{ℤ, pos, negsuc, leb_ℤ, wrap64, ◌+ℤ◌}
use lambda_runtime_init.Core.DirectInvoke.{
  InvokeResponseMode, buffered, streaming, Refusal, malformed_customer_headers,
  invalid_max_payload_size, invalid_invoke_response_mode, invalid_response_bandwidth_rate,
  invalid_response_bandwidth_burst_size, invalid_invoke_id, invalid_reservation_token,
  invalid_function_version, reservation_expired, Settings, CustomerHeaders, Request, Token, Invoke,
  Response, is_streaming_invoke, World, Part, ◌>>◌, refuse, require, change, respond, number,
  set_max, set_rate, set_burst, set_mode, between, is_absent, optional,
}

unfoldable pub load : (String → Option CustomerHeaders) → String → Option CustomerHeaders
load decode text =
    if is_absent text
    then some
        (record { cognito_identity_id = ""; cognito_identity_pool_id = ""; client_context = "" })
    else decode text

module _ (parse_int : String → Option ℤ) where
  unfoldable pub receive_max_payload_size : ℕ → String → Part
  unfolding refuse
  receive_max_payload_size default text = do
    change (set_max (pos default))
    optional text (number (parse_int text) (leb_ℤ (negsuc 0)) set_max invalid_max_payload_size)

  unfoldable pub receive_rate : String → Part
  unfolding refuse
  receive_rate text = do
    change (set_rate (pos 2_097_152))
    optional text (
        number (parse_int text) (between 32_768 67_108_864) set_rate
          invalid_response_bandwidth_rate)

  unfoldable pub receive_burst : String → Part
  unfolding refuse
  receive_burst text = do
    change (set_burst (pos 6_291_456))
    optional text (
        number (parse_int text) (between 32_768 67_108_864) set_burst
          invalid_response_bandwidth_burst_size)

unfoldable pub convert_to_invoke_response_mode :
    (String → String → Bool) → String → Option InvokeResponseMode
convert_to_invoke_response_mode equal_fold value =
    if equal_fold value "Buffered"
    then some buffered
    else if equal_fold value "Streaming"
    then some streaming
    else none

abbrev pub mode_or_refuse : Option InvokeResponseMode → Part
mode_or_refuse none = refuse invalid_invoke_response_mode
mode_or_refuse (some mode) = change (set_mode mode)

unfoldable pub receive_mode : (String → String → Bool) → String → Part
unfolding convert_to_invoke_response_mode refuse
receive_mode equal_fold text =
    optional text (mode_or_refuse (convert_to_invoke_response_mode equal_fold text))

abbrev pub add_trailers : Response → Response
add_trailers w = record w {
  trailer =
      w.trailer ++ "Lambda-Runtime-Function-Error-Type" ∷ "Lambda-Runtime-Function-Error-Body" ∷ [];
}

unfoldable pub receive_streaming : (String → Option ℤ) → Request → Part
unfolding receive_rate receive_burst
receive_streaming parse_int r = do
  respond add_trailers
  change (set_mode streaming)
  receive_rate parse_int r.response_bandwidth_rate
  receive_burst parse_int r.response_bandwidth_burst_size

abbrev pub is_streaming : Settings → Bool
is_streaming s = is_streaming_invoke s.max_direct_response_size s.invoke_response_mode

unfoldable pub receive_if_streaming : (String → Option ℤ) → Request → Part
unfolding is_streaming_invoke receive_streaming
receive_if_streaming parse_int r w =
    if is_streaming w.settings then receive_streaming parse_int r w else (w, none)

-- The checks against the token, and the headers of an accepted invoke.
abbrev pub echo : Token → Response → Response
echo t w = record w {
  headers =
      let all = insert "Invoke-Id" t.invoke_id (
        insert "Reservation-Token" t.reservation_token
          (insert "Invoked-Function-Version" t.version_id w.headers)) in
      if is_absent t.tenant_id then all else insert "Tenant-Id" t.tenant_id all;
}

unfoldable pub check_token : Request → Token → ℤ → Part
unfolding refuse
check_token r t now = do
  require (str_eq r.invoke_id t.invoke_id) invalid_invoke_id
  require (str_eq r.reservation_token t.reservation_token) invalid_reservation_token
  require (str_eq r.version_id t.version_id) invalid_function_version
  require (leb_ℤ now t.invack_deadline_ns) reservation_expired
  respond (echo t)

-- An invoke that was accepted, or why it was refused.
pub data Received : Type 0 where
  accepted : Invoke → Received
  refused : Refusal → Received

unfoldable pub make_invoke : Request → Token → ℤ → CustomerHeaders → Settings → Invoke
unfolding wrap64 ◌+ℤ◌
make_invoke r t now customer s = record {
  id = r.invoke_id;
  reservation_token = r.reservation_token;
  invoked_function_arn = r.invoked_function_arn;
  version_id = r.version_id;
  content_type = r.content_type;
  customer = customer;
  trace_id = t.trace_id;
  lambda_segment_id = t.lambda_segment_id;
  deadline_ns = wrap64 (now +ℤ t.function_timeout);
  need_debug_logs = t.need_debug_logs;
  invoke_received_time = now;
  invoke_response_mode = s.invoke_response_mode;
  restore_duration_ns = t.restore_duration_ns;
  restore_start_time_monotime = t.restore_start_time_monotime;
  tenant_id = t.tenant_id;
}

abbrev pub announce : Response → Response
announce w = record w { trailer = "End-Of-Response" ∷ [] }

abbrev pub finish :
    Request → Token → ℤ → CustomerHeaders → World × Option Refusal → World × Received
finish r t now customer (w, some e) = (w, refused e)
finish r t now customer (w, none) = (w, accepted (make_invoke r t now customer w.settings))

module _ (parse_int : String → Option ℤ) (equal_fold : String → String → Bool)
    (decode : String → Option CustomerHeaders) (max_payload_size : ℕ) where
  unfoldable pub receive_headers : Request → Part
  unfolding receive_max_payload_size receive_mode receive_if_streaming
  receive_headers r = do
    receive_max_payload_size parse_int max_payload_size r.max_payload_size
    receive_mode equal_fold r.invoke_response_mode
    receive_if_streaming parse_int r

  unfoldable pub receive_direct_invoke : Request → Token → ℤ → World → World × Received
  unfolding load receive_headers check_token make_invoke refuse
  receive_direct_invoke r t now w₀ =
      let w : World = record w₀ { response = announce w₀.response } in
      elim (load decode r.customer_headers) [
        | none ↦ ((refuse malformed_customer_headers w).0, refused malformed_customer_headers)
        | some customer ↦ finish r t now customer ((receive_headers r >> check_token r t now) w)
      ]
