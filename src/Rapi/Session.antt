-- ===== src/Rapi/Session.antt =====
-- internal/lambda/rapi: what the handlers of the Runtime API share: what they change, and how they
-- answer (rendering/render_error.go, rendering/rendering.go).
use lambda_runtime_init.Base.{ℕ, Bool, Option, none, some, List, String}
use lambda_runtime_init.Core.Error.{FunctionError}
use lambda_runtime_init.Core.Runtime.{Runtime}
use lambda_runtime_init.Core.Runtime.Methods.{response_sent}
use lambda_runtime_init.Core.Thread.{Object, Resume, Outcome, returned, suspended}
use lambda_runtime_init.Rapi.ErrorCause.{ErrorCause}
use lambda_runtime_init.Rapidcore.Server.{
  ServerError, invalid_invoke_id, response_sent as already_sent, Server,
}
use lambda_runtime_init.Appctx.{ApplicationContext}

-- What a handler works on: the runtime with the flows, the interop server and the application context.
pub record Session : Type 0 where
  pub runtime : Object Runtime
  pub server : Server
  pub app : ApplicationContext

-- The answer to a request. `event` is a rendered event, or the answer to a registration; `blocked` is a handler that waits for its operator; `forbidden` and
-- `bad_request` have the error type.
pub data Rendered : Type 0 where
  accepted event not_found : Rendered
  forbidden bad_request : String → Rendered
  request_entity_too_large internal_server_error panicked : Rendered
  blocked : Resume → Rendered

-- The status code, if there is an answer. A panic is recovered outside, and has none of these.
unfoldable pub status : Rendered → Option ℕ
status accepted = some 202
status event = some 200
status not_found = some 404
status (forbidden t) = some 403
status (bad_request t) = some 400
status request_entity_too_large = some 413
status internal_server_error = some 500
status panicked = none
status (blocked r) = none

abbrev pub invalid_state_transition : Rendered
invalid_state_transition = forbidden "InvalidStateTransition"

abbrev pub invalid_request_id : Rendered
invalid_request_id = bad_request "InvalidRequestID"

abbrev pub truncated_http_request : Rendered
truncated_http_request = bad_request "TruncatedHTTPRequest"

abbrev pub invalid_function_response_mode : Rendered
invalid_function_response_mode = bad_request "InvalidFunctionResponseMode"

unfoldable pub render_interop_error : ServerError → Rendered
render_interop_error invalid_invoke_id = invalid_request_id
render_interop_error already_sent = invalid_request_id
render_interop_error _ = panicked

-- Readings of the clock, in the order in which they are taken.
pub record Times : Type 0 where
  pub first : ℕ
  pub second : ℕ
  pub third : ℕ

-- A transition that is refused is logged and answered with 403.
abbrev pub transition :
    Session → Object Runtime × Outcome → (Session → Session × Rendered) → Session × Rendered
transition s (o, returned (some e)) next = (record s { runtime = o }, invalid_state_transition)
transition s (o, suspended r) next = (record s { runtime = o }, blocked r)
transition s (o, returned none) next = next (record s { runtime = o })

abbrev respond_or_panic : Session → Rendered → Object Runtime × Outcome → Session × Rendered
respond_or_panic s r (o, returned none) = (record s { runtime = o }, r)
respond_or_panic s r (o, returned (some e)) = (record s { runtime = o }, panicked)
respond_or_panic s r (o, suspended x) = (record s { runtime = o }, blocked x)

-- `runtime.ResponseSent()`, whose error panics, and then the answer.
unfoldable pub response_sent_then : Times → Rendered → Session → Session × Rendered
unfolding response_sent
response_sent_then t r s = respond_or_panic s r (response_sent t.second t.third s.runtime)

-- What `encoding/json` does, which is not modelled.
pub record ErrorWithCauseRequest : Type 0 where
  pub error_message : List ℕ
  pub error_type : List ℕ
  pub stack_trace : List (List ℕ)
  pub error_cause : List ℕ

pub record ErrorResponse : Type 0 where
  pub error_message : List ℕ
  pub error_type : List ℕ
  pub stack_trace : List (List ℕ)

pub record Json : Type 0 where
  pub encode_cause : ErrorCause → Option (List ℕ)
  pub decode_cause : List ℕ → Option ErrorCause
  pub decode_request : List ℕ → Option ErrorWithCauseRequest
  pub encode_response : ErrorResponse → Option (List ℕ)
  pub encode_function_error : FunctionError → List ℕ
  pub invalid_error_body : List ℕ
  pub is_valid : List ℕ → Bool
