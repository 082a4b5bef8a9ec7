-- ===== src/Tests/DirectInvoke.antt =====
-- Concrete inputs for internal/lambda/core/directinvoke.
use lambda_runtime_init.Base.{
  List, ◌∷◌, ◌<◌, ◌≡◌, refl, false, Option, none, some, [], String, str_eq, arith, if◌then◌else◌,
}
use lambda_runtime_init.Base.Int.{ℤ, pos, negsuc}
use lambda_runtime_init.Bandwidth.Bucket.{Bucket, IsValid}
use lambda_runtime_init.Bandwidth.Bucket.Rate.{tokens, cap, refill}
use lambda_runtime_init.Core.DirectInvoke.{
  streaming, invalid_max_payload_size, CustomerHeaders, Request, Token, Invoke, World,
  initial_settings, streamed_bucket,
}
use lambda_runtime_init.Core.DirectInvoke.Receive.{accepted, refused, receive_direct_invoke}
use lambda_runtime_init.Core.DirectInvoke.Ranges.{
  InRange, initial-InRange, receive-InRange, streamed_bucket-IsValid,
}
use lambda_runtime_init.Core.DirectInvoke.Refusals.{Told, receive-Told}
use lambda_runtime_init.Core.DirectInvoke.Accepted.{Matches, receive-Matches}
use lambda_runtime_init.Core.DirectInvoke.Modes.{receive_all, AllStreamed, receive_all-streamed}

-- Two numbers in decimal.
abbrev parse : String → Option ℤ
parse t =
    if str_eq t "-1" then some (negsuc 0) else if str_eq t "40000" then some (pos 40_000) else none

abbrev decode : String → Option CustomerHeaders
decode _ = none

abbrev request : String → String → Request
request size id = record {
  customer_headers = "";
  max_payload_size = size;
  invoke_response_mode = "";
  response_bandwidth_rate = "40000";
  response_bandwidth_burst_size = "";
  invoke_id = id;
  reservation_token = "r";
  invoked_function_arn = "arn";
  version_id = "1";
  content_type = "application/json";
}

abbrev token : Token
token = record {
  reservation_token = "r";
  invoke_id = "i";
  tenant_id = "";
  version_id = "1";
  function_timeout = pos 3_000;
  invack_deadline_ns = pos 100;
  trace_id = "";
  lambda_segment_id = "";
  need_debug_logs = false;
  restore_duration_ns = pos 0;
  restore_start_time_monotime = pos 0;
}

abbrev fresh : World
fresh = record {
  settings = initial_settings 6_291_556;
  response = record { trailer = []; headers = []; status = none };
}

-- After a streamed request.
abbrev streamed : World
streamed = record fresh {
  settings = record {
    max_direct_response_size = negsuc 0;
    response_bandwidth_rate = pos 40_000;
    response_bandwidth_burst_size = pos 6_291_456;
    invoke_response_mode = streaming;
  };
}

receive-InRange_example :
    InRange
      (receive_direct_invoke parse str_eq decode 6_291_556
        (request "-1" "i")
        token
        (pos 50)
        fresh).0.settings
receive-InRange_example =
    receive-InRange parse str_eq decode 6_291_556 (request "-1" "i") token (pos 50) fresh
      (initial-InRange 6_291_556)

streamed-InRange : InRange streamed.settings
streamed-InRange = ground arith

streamed_bucket-IsValid_example :
    (b : Bucket) × (streamed_bucket streamed.settings ≡ some b)
    × IsValid b
    × (tokens b ≡ cap b)
    × (0 < cap b)
    × (0 < refill b)
streamed_bucket-IsValid_example = streamed_bucket-IsValid streamed.settings streamed-InRange

receive-Told_example :
    Told
      (receive_direct_invoke parse str_eq decode 6_291_556 (request "x" "i") token (pos 50) fresh)
receive-Told_example =
    receive-Told parse str_eq decode 6_291_556 (request "x" "i") token (pos 50) fresh refl

size-refused :
    (receive_direct_invoke parse str_eq decode 6_291_556 (request "x" "i") token (pos 50) fresh).1
    ≡ refused invalid_max_payload_size
unfolding receive_direct_invoke
size-refused = refl

abbrev invoke : Invoke
invoke = record {
  id = "i";
  reservation_token = "r";
  invoked_function_arn = "arn";
  version_id = "1";
  content_type = "application/json";
  customer = record {
    cognito_identity_id = "";
    cognito_identity_pool_id = "";
    client_context = "";
  };
  trace_id = "";
  lambda_segment_id = "";
  deadline_ns = pos 3_050;
  need_debug_logs = false;
  invoke_received_time = pos 50;
  invoke_response_mode = streaming;
  restore_duration_ns = pos 0;
  restore_start_time_monotime = pos 0;
  tenant_id = "";
}

streamed-accepted :
    (receive_direct_invoke parse str_eq decode 6_291_556 (request "-1" "i") token (pos 50) fresh).1
    ≡ accepted invoke
unfolding receive_direct_invoke
streamed-accepted = refl

receive-Matches_example :
    Matches token
      (pos 50)
      (receive_direct_invoke parse str_eq decode 6_291_556
        (request "-1" "i")
        token
        (pos 50)
        fresh).0.settings
      invoke
receive-Matches_example =
    receive-Matches parse str_eq decode 6_291_556 (request "-1" "i") token (pos 50) fresh invoke
      streamed-accepted

abbrev two_requests : List (Request × Token × ℤ)
two_requests = (request "" "i", token, pos 50) ∷ (request "-1" "i", token, pos 60) ∷ []

receive_all-streamed_example :
    AllStreamed (receive_all parse str_eq decode 6_291_556 two_requests streamed).1
    × ((receive_all parse str_eq decode 6_291_556 two_requests
          streamed).0.settings.invoke_response_mode
        ≡ streaming)
receive_all-streamed_example =
    receive_all-streamed parse str_eq decode 6_291_556 two_requests streamed refl (refl, (refl, tt))
