-- ===== src/Rapi/Responses.antt =====
-- internal/lambda/rapi/handler/invocationresponse.go, invocationerror.go and
-- mime_type_error_cause_json.go: the runtime's response to an invoke, or its error.
pub mod Laws
pub mod Stuck
pub mod Errors
use lambda_runtime_init.Base.{
  ℕ, Bool, true, false, Option, none, some, List, [], ◌∷◌, ◌++◌, String, str_eq, if◌then◌else◌,
  ◌||◌, or_else,
}
use lambda_runtime_init.Core.Error.{FunctionError}
use lambda_runtime_init.Core.Runtime.{Runtime}
use lambda_runtime_init.Core.Runtime.Methods.{invocation_response, invocation_error_response}
use lambda_runtime_init.Core.Thread.{Object, Outcome, returned, suspended}
use lambda_runtime_init.Rapi.ErrorCause.{
  Validated, valid, malformed, not_encodable, invalid_format, validated_error_cause_json,
}
use lambda_runtime_init.Rapidcore.Server.{
  ServerError, response_too_large, response_too_large_di, truncated_response,
  internal_platform_error, Server, Result, ok, panics, waits, error, ErrorInvokeResponse,
}
use lambda_runtime_init.Rapidcore.Server.Send.{Delivery, Sent, send_response, send_error_response}
use lambda_runtime_init.Appctx.{
  ApplicationContext, load_response_sender, absent, mistyped, found, store_invoke_error_trace_data,
}
use lambda_runtime_init.Fatalerror.{
  get_valid_runtime_or_function_error_type, function_oversized_response,
}
use lambda_runtime_init.Rapi.Session.{
  Session, Rendered, accepted, request_entity_too_large, internal_server_error, panicked,
  truncated_http_request, invalid_function_response_mode, render_interop_error, Times, transition,
  response_sent_then, Json, ErrorWithCauseRequest, ErrorResponse,
}

-- A request with its headers: `delivery` is what becomes of its body, and `error_delivery` of the error
-- that is sent in its place.
pub record ResponseRequest : Type 0 where
  pub invoke_id : String
  pub function_response_mode : String
  pub delivery : Delivery
  pub error_delivery : Delivery

-- A payload that is in memory is read whole.
abbrev pub of_payload : List ℕ → Delivery → Delivery
of_payload payload d = record d { read = some payload }

-- The panic where no server is in the context.
abbrev pub with_sender : Session → (Session → Session × Rendered) → Session × Rendered
with_sender s next = elim (load_response_sender s.app) [
  | found w ↦ next s
  | absent ↦ (s, panicked)
  | mistyped ↦ (s, panicked)
]

abbrev pub store_trace : Option (List ℕ) → Session → Session
store_trace cause s = record s { app = store_invoke_error_trace_data cause s.app }

-- Only "streaming" is a mode; without the header the response is buffered.
abbrev pub is_mode : String → Bool
is_mode mode = str_eq mode "" || str_eq mode "streaming"

module _ (json : Json) (max : ℕ) where
  -- `ErrorResponseTooLarge.AsErrorResponse`; the text of its message is a parameter.
  abbrev pub oversized_payload : (ℕ → List ℕ) → ℕ → List ℕ
  oversized_payload message limit =
      json.encode_function_error
        (record { type = function_oversized_response; message = message limit })

  abbrev pub after_too_large : Times → ServerError → Session → Sent → Session × Rendered
  after_too_large t e s sent = elim sent.result [
    | ok ↦
        response_sent_then t request_entity_too_large
          (store_trace none (record s { server = sent.server }))
    | error x ↦ (record s { server = sent.server }, render_interop_error e)
    | panics ↦ (record s { server = sent.server }, panicked)
    | waits ↦ (record s { server = sent.server }, panicked)
  ]

  -- The switch over the type of the error.
  unfoldable pub response_failed :
      (ℕ → List ℕ) → Times → ResponseRequest → ServerError → Session → Session × Rendered
  unfolding send_error_response store_invoke_error_trace_data response_sent_then
      render_interop_error
  response_failed message t r (response_too_large n limit) s =
      after_too_large t (response_too_large n limit) s (
        send_error_response max r.invoke_id
          (of_payload (oversized_payload message limit) r.error_delivery) s.server)
  response_failed message t r response_too_large_di s =
      response_sent_then t request_entity_too_large s
  response_failed message t r truncated_response s = response_sent_then t truncated_http_request s
  response_failed message t r internal_platform_error s = (s, internal_server_error)
  response_failed message t r e s = (s, render_interop_error e)

  -- What follows `SendResponse`.
  unfoldable pub response_answered :
      (ℕ → List ℕ) → Times → ResponseRequest → Sent → Session → Session × Rendered
  unfolding response_failed response_sent_then
  response_answered message t r sent s = elim sent.result [
    | ok ↦ response_sent_then t accepted (record s { server = sent.server })
    | error e ↦ response_failed message t r e (record s { server = sent.server })
    | panics ↦ (record s { server = sent.server }, panicked)
    | waits ↦ (record s { server = sent.server }, panicked)
  ]

  -- What follows the transition to `InvocationResponse`.
  unfoldable pub response_delivered :
      (ℕ → List ℕ) → Times → ResponseRequest → Session → Session × Rendered
  unfolding send_response send_error_response response_answered
  response_delivered message t r s =
      if is_mode r.function_response_mode
      then response_answered message t r (send_response max r.invoke_id r.delivery s.server) s
      else (
        record s {
          server =
              (send_error_response max r.invoke_id (of_payload [] r.error_delivery)
                s.server).server;
        },
        invalid_function_response_mode,
      )

  unfoldable pub serve_invocation_response :
      (ℕ → List ℕ) → Times → ResponseRequest → Session → Session × Rendered
  unfolding load_response_sender invocation_response response_delivered
  serve_invocation_response message t r s =
      with_sender s
        (λ s. transition s (invocation_response t.first s.runtime) (response_delivered message t r))

-- An error request: `body` is what reading it gives.
pub record ErrorRequest : Type 0 where
  pub invoke_id : String
  pub content_type : String
  pub function_response_mode : String
  pub error_type : List ℕ
  pub xray_error_cause : List ℕ
  pub body : Option (List ℕ)
  pub delivery : Delivery

-- The body of the error, its cause, and whether an error was met on the way.
pub record ErrorBody : Type 0 where
  pub body : List ℕ
  pub cause : Option (List ℕ)
  pub failed : Bool

abbrev pub error_with_cause_content_type : String
error_with_cause_content_type = "application/vnd.aws.lambda.error.cause+json"

module _ (json : Json) where
  -- `getValidatedErrorCause`, and `getValidatedXRayCause`: no cause, or the validated one.
  unfoldable pub validated_cause : List ℕ → Option (List ℕ)
  unfolding validated_error_cause_json
  validated_cause [] = none
  validated_cause (c ∷ cs) =
      elim (validated_error_cause_json json.encode_cause json.decode_cause (c ∷ cs)) [
        | valid j ↦ j
        | malformed ↦ none
        | not_encodable ↦ none
        | invalid_format ↦ none
      ]

  abbrev filtered : ErrorWithCauseRequest → ErrorBody
  filtered q =
      elim (json.encode_response (record {
        error_message = q.error_message;
        error_type = q.error_type;
        stack_trace = q.stack_trace;
      })) [
        | none ↦ record { body = []; cause = validated_cause q.error_cause; failed = true }
        | some f ↦ record { body = f; cause = validated_cause q.error_cause; failed = false }
      ]

  unfoldable pub get_error_body_for_error_cause_content_type : Option (List ℕ) → ErrorBody
  unfolding validated_cause
  get_error_body_for_error_cause_content_type none = record {
    body = [];
    cause = none;
    failed = true;
  }
  get_error_body_for_error_cause_content_type (some b) = elim (json.decode_request b) [
    | none ↦ record { body = json.invalid_error_body; cause = none; failed = true }
    | some q ↦ filtered q
  ]

  abbrev plain_body : ErrorRequest → ErrorBody
  plain_body r = record {
    body = or_else r.body [];
    cause = validated_cause r.xray_error_cause;
    failed = elim r.body [ none ↦ true | some b ↦ false ];
  }

  unfoldable pub error_body : ErrorRequest → ErrorBody
  unfolding get_error_body_for_error_cause_content_type
  error_body r =
      if str_eq r.content_type error_with_cause_content_type
      then get_error_body_for_error_cause_content_type r.body
      else plain_body r

  abbrev content_type_of : ErrorRequest → Bool → String
  content_type_of r failed =
      if str_eq r.content_type error_with_cause_content_type
      then if failed then "application/octet-stream" else "application/json"
      else r.content_type

  unfoldable pub error_response : ErrorRequest → ErrorInvokeResponse
  unfolding error_body get_valid_runtime_or_function_error_type
  error_response r = record {
    content_type = content_type_of r (error_body r).failed;
    function_response_mode = r.function_response_mode;
    error_type = get_valid_runtime_or_function_error_type r.error_type;
    message = [];
    payload = (error_body r).body;
  }

  -- What follows `SendErrorResponse`.
  abbrev pub error_answered : Times → ErrorRequest → Session → Sent → Session × Rendered
  error_answered t r s sent = elim sent.result [
    | ok ↦
        response_sent_then t accepted
          (store_trace (error_body r).cause (record s { server = sent.server }))
    | error e ↦ (record s { server = sent.server }, render_interop_error e)
    | panics ↦ (record s { server = sent.server }, panicked)
    | waits ↦ (record s { server = sent.server }, panicked)
  ]

  unfoldable pub error_delivered : ℕ → Times → ErrorRequest → Session → Session × Rendered
  unfolding send_error_response response_sent_then render_interop_error error_body error_response
      store_invoke_error_trace_data
  error_delivered max t r s = error_answered t r s (
      send_error_response max r.invoke_id (of_payload (error_response r).payload r.delivery)
        s.server)

  unfoldable pub serve_invocation_error : ℕ → Times → ErrorRequest → Session → Session × Rendered
  unfolding load_response_sender invocation_error_response error_delivered
  serve_invocation_error max t r s =
      with_sender s
        (λ s. transition s (invocation_error_response t.first s.runtime) (error_delivered max t r))
