-- ===== src/Core/DirectInvoke.antt =====
-- internal/lambda/core/directinvoke: a direct invoke is checked against its reservation.
-- A request and a response are their headers; the body is passed on unread and is left out.
pub mod Receive
pub mod Ranges
pub mod Refusals
pub mod Accepted
pub mod Modes
use lambda_runtime_init.Base.{
  ℕ, zero, suc, ◌+◌, ◌*◌, ◌/◌, Bool, true, false, not, ◌&&◌, ◌||◌, Option, none, some, List, [],
  ◌∷◌, ◌++◌, String, str_eq, if◌then◌else◌, ◌==◌,
}
use lambda_runtime_init.Base.Dict.{insert}
use lambda_runtime_init.Base.Int.{ℤ, pos, negsuc, leb_ℤ, ltb_ℤ, wrap64, ◌+ℤ◌}
use lambda_runtime_init.Bandwidth.Bucket.{Bucket, new_bucket}

pub data InvokeResponseMode : Type 0 where
  buffered streaming : InvokeResponseMode

-- The errors of `interop` that refuse an invoke.
pub data Refusal : Type 0 where
  malformed_customer_headers invalid_max_payload_size invalid_invoke_response_mode : Refusal
  invalid_response_bandwidth_rate invalid_response_bandwidth_burst_size : Refusal
  invalid_invoke_id invalid_reservation_token invalid_function_version reservation_expired : Refusal

unfoldable pub error_text : Refusal → String
error_text malformed_customer_headers = "ErrMalformedCustomerHeaders"
error_text invalid_max_payload_size = "ErrInvalidMaxPayloadSize"
error_text invalid_invoke_response_mode = "ErrInvalidInvokeResponseMode"
error_text invalid_response_bandwidth_rate = "ErrInvalidResponseBandwidthRate"
error_text invalid_response_bandwidth_burst_size = "ErrInvalidResponseBandwidthBurstSize"
error_text invalid_invoke_id = "ErrInvalidInvokeID"
error_text invalid_reservation_token = "ErrInvalidReservationToken"
error_text invalid_function_version = "ErrInvalidFunctionVersion"
error_text reservation_expired = "ErrReservationExpired"

-- The package's variables, which outlive a request.
pub record Settings : Type 0 where
  pub max_direct_response_size : ℤ
  pub response_bandwidth_rate : ℤ
  pub response_bandwidth_burst_size : ℤ
  pub invoke_response_mode : InvokeResponseMode

pub record CustomerHeaders : Type 0 where
  pub cognito_identity_id : String
  pub cognito_identity_pool_id : String
  pub client_context : String

-- What `r.Header.Get` and `chi.URLParam` answer: "" where there is no such header.
pub record Request : Type 0 where
  pub customer_headers : String
  pub max_payload_size : String
  pub invoke_response_mode : String
  pub response_bandwidth_rate : String
  pub response_bandwidth_burst_size : String
  pub invoke_id : String
  pub reservation_token : String
  pub invoked_function_arn : String
  pub version_id : String
  pub content_type : String

pub record Token : Type 0 where
  pub reservation_token : String
  pub invoke_id : String
  pub tenant_id : String
  pub version_id : String
  pub function_timeout : ℤ
  pub invack_deadline_ns : ℤ
  pub trace_id : String
  pub lambda_segment_id : String
  pub need_debug_logs : Bool
  pub restore_duration_ns : ℤ
  pub restore_start_time_monotime : ℤ

-- `interop.Invoke`; the source gives `deadline_ns` as text.
pub record Invoke : Type 0 where
  pub id : String
  pub reservation_token : String
  pub invoked_function_arn : String
  pub version_id : String
  pub content_type : String
  pub customer : CustomerHeaders
  pub trace_id : String
  pub lambda_segment_id : String
  pub deadline_ns : ℤ
  pub need_debug_logs : Bool
  pub invoke_received_time : ℤ
  pub invoke_response_mode : InvokeResponseMode
  pub restore_duration_ns : ℤ
  pub restore_start_time_monotime : ℤ
  pub tenant_id : String

-- The values of the header `Trailer`, the other headers, and the status, if it was written.
pub record Response : Type 0 where
  pub trailer : List String
  pub headers : List (String × String)
  pub status : Option ℕ

unfoldable pub render_bad_request : String → Response → Response
unfolding insert
render_bad_request error_type w = record w {
  headers = insert "End-Of-Response" "Complete" (insert "Error-Type" error_type w.headers);
  status = some 400;
}

unfoldable pub is_streaming_invoke : ℤ → InvokeResponseMode → Bool
is_streaming_invoke (negsuc zero) mode = true
is_streaming_invoke _ streaming = true
is_streaming_invoke _ buffered = false

-- What the handler writes to, and a part of it: it goes on (`none`) or refuses the request.
pub record World : Type 0 where
  pub settings : Settings
  pub response : Response

abbrev pub Part : Type 0
Part = World → World × Option Refusal

abbrev pub continue : Part → World × Option Refusal → World × Option Refusal
continue b (w, none) = b w
continue b (w, some e) = (w, some e)

infixl 5 ◌>>◌
abbrev pub ◌>>◌ : Part → Part → Part
◌>>◌ a b w = continue b (a w)

unfoldable pub refuse : Refusal → Part
unfolding render_bad_request error_text
refuse e w = (record w { response = render_bad_request (error_text e) w.response }, some e)

abbrev pub require : Bool → Refusal → Part
require true e w = (w, none)
require false e w = refuse e w

abbrev pub change : (Settings → Settings) → Part
change f w = (record w { settings = f w.settings }, none)

abbrev pub respond : (Response → Response) → Part
respond f w = (record w { response = f w.response }, none)

-- A number in a header, refused if it does not parse or is out of range.
abbrev pub number : Option ℤ → (ℤ → Bool) → (ℤ → Settings → Settings) → Refusal → Part
number none ok set e w = refuse e w
number (some n) ok set e w = if ok n then change (set n) w else refuse e w

-- A header that may be absent.
abbrev pub is_absent : String → Bool
is_absent s = str_eq s ""

abbrev pub optional : String → Part → Part
optional text p w = if is_absent text then (w, none) else p w

abbrev pub set_max : ℤ → Settings → Settings
set_max n s = record s { max_direct_response_size = n }

abbrev pub set_rate : ℤ → Settings → Settings
set_rate n s = record s { response_bandwidth_rate = n }

abbrev pub set_burst : ℤ → Settings → Settings
set_burst n s = record s { response_bandwidth_burst_size = n }

abbrev pub set_mode : InvokeResponseMode → Settings → Settings
set_mode m s = record s { invoke_response_mode = m }

abbrev pub between : ℕ → ℕ → ℤ → Bool
between lo hi n = leb_ℤ (pos lo) n && leb_ℤ n (pos hi)

-- The settings that a process starts with; `max_payload_size` is a variable of `interop`.
unfoldable pub initial_settings : ℕ → Settings
initial_settings max_payload_size = record {
  max_direct_response_size = pos max_payload_size;
  response_bandwidth_rate = pos 2_097_152;
  response_bandwidth_burst_size = pos 6_291_456;
  invoke_response_mode = buffered;
}

-- A quotient as Go has it, rounded towards 0.
abbrev opposite : ℕ → ℤ
opposite zero = pos 0
opposite (suc n) = negsuc n

abbrev pub quot : ℤ → ℕ → ℤ
quot (pos n) k = pos (n / k)
quot (negsuc n) k = opposite (suc n / k)

abbrev pub times : ℤ → ℕ → ℤ
times (pos n) k = wrap64 (pos (n * k))
times (negsuc n) k = wrap64 (opposite (suc n * k))

-- The bucket of `NewStreamedResponseWriter`, with 125 ms between refills.
unfoldable pub streamed_bucket : Settings → Option Bucket
unfolding new_bucket wrap64
streamed_bucket s =
    new_bucket s.response_bandwidth_burst_size s.response_bandwidth_burst_size
      (quot (times s.response_bandwidth_rate 125) 1000) (pos 125_000_000)
