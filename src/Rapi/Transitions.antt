-- ===== src/Rapi/Transitions.antt =====
-- internal/lambda/rapi/handler/invocationnext.go, restorenext.go, initerror.go and restoreerror.go: the
-- runtime's other requests; and the middleware that checks the ID of an invoke
-- (middleware/middleware.go). An event is rendered by rendering/rendering.go.
use lambda_runtime_init.Base.{
  ℕ, Bool, true, false, not, Option, none, List, [], String, str_eq, if◌then◌else◌, ◌||◌, or_else,
}
use lambda_runtime_init.Core.Error.{FunctionError}
use lambda_runtime_init.Core.Runtime.{restoring}
use lambda_runtime_init.Core.Runtime.Methods.{ready, restore_ready, init_error, restore_error, wake}
use lambda_runtime_init.Core.Thread.{Resume}
use lambda_runtime_init.Rapidcore.Server.{
  ok, panics, waits, error, ErrorInvokeResponse, get_current_invoke_id,
}
use lambda_runtime_init.Rapidcore.Server.Send.{Delivery, Sent, send_init_error_response}
use lambda_runtime_init.Appctx.{
  load_interop_server, absent, mistyped, found, store_invoke_error_trace_data,
}
use lambda_runtime_init.Fatalerror.{get_valid_runtime_or_function_error_type}
use lambda_runtime_init.Rapi.Session.{
  Session, Rendered, accepted, event, panicked, internal_server_error, invalid_request_id,
  transition, Times, Json, render_interop_error,
}
use lambda_runtime_init.Rapi.Responses.{of_payload}

-- The states of `EventRenderingService`; the renderer of an invoke writes its event, or fails to.
pub data Renderer : Type 0 where
  not_set restore_renderer shutdown_renderer : Renderer
  invoke_renderer : Bool → Renderer

unfoldable pub render_runtime_event : Renderer → Rendered
render_runtime_event not_set = internal_server_error
render_runtime_event restore_renderer = event
render_runtime_event shutdown_renderer = panicked
render_runtime_event (invoke_renderer written) = if written then event else internal_server_error

-- `/next`, up to its wait, and from there.
unfoldable pub serve_invocation_next : Renderer → Times → Session → Session × Rendered
unfolding ready render_runtime_event
serve_invocation_next r t s =
    transition s (ready t.first t.second s.runtime) (λ s. (s, render_runtime_event r))

unfoldable pub serve_restore_next : Renderer → Times → Session → Session × Rendered
unfolding restore_ready render_runtime_event
serve_restore_next r t s =
    transition s (restore_ready t.first t.second s.runtime) (λ s. (s, render_runtime_event r))

unfoldable pub serve_woken : Renderer → Resume → Times → Session → Session × Rendered
unfolding wake render_runtime_event
serve_woken r x t s = transition s (wake x t.first s.runtime) (λ s. (s, render_runtime_event r))

-- The panic where no interop server is in the context.
abbrev pub with_server : Session → (Session → Session × Rendered) → Session × Rendered
with_server s next = elim (load_interop_server s.app) [
  | found w ↦ next s
  | absent ↦ (s, panicked)
  | mistyped ↦ (s, panicked)
]

pub record InitErrorRequest : Type 0 where
  pub error_type : List ℕ
  pub body : Option (List ℕ)
  pub delivery : Delivery

abbrev function_error : InitErrorRequest → FunctionError
function_error r = record {
  type = get_valid_runtime_or_function_error_type r.error_type;
  message = [];
}

abbrev with_trace : Session → Session × Rendered
with_trace s = (record s { app = store_invoke_error_trace_data none s.app }, accepted)

unfoldable pub serve_restore_error : Times → InitErrorRequest → Session → Session × Rendered
unfolding load_interop_server restore_error get_valid_runtime_or_function_error_type
    store_invoke_error_trace_data
serve_restore_error t r s =
    with_server s
      (λ s. transition s (restore_error (function_error r) t.first s.runtime) with_trace)

abbrev is_restoring : Session → Bool
is_restoring s = elim s.runtime.self.current_state [ restoring ↦ true | _ ↦ false ]

module _ (json : Json) (max : ℕ) where
  unfoldable pub determine_json_content_type : List ℕ → String
  determine_json_content_type body =
      if json.is_valid body then "application/json" else "application/octet-stream"

  unfoldable pub init_error_response : InitErrorRequest → ErrorInvokeResponse
  unfolding determine_json_content_type get_valid_runtime_or_function_error_type
  init_error_response r = record {
    content_type = determine_json_content_type (or_else r.body []);
    function_response_mode = "";
    error_type = get_valid_runtime_or_function_error_type r.error_type;
    message = [];
    payload = or_else r.body [];
  }

  abbrev init_answered : Session → Sent → Session × Rendered
  init_answered s sent = elim sent.result [
    | ok ↦ with_trace (record s { server = sent.server })
    | error e ↦ (record s { server = sent.server }, render_interop_error e)
    | panics ↦ (record s { server = sent.server }, panicked)
    | waits ↦ (record s { server = sent.server }, panicked)
  ]

  abbrev init_delivered : InitErrorRequest → Session → Session × Rendered
  init_delivered r s = init_answered s (
      send_init_error_response max (init_error_response r)
        (of_payload (or_else r.body []) r.delivery) s.server)

  -- A runtime that is restoring reports the error of its restore here.
  unfoldable pub serve_init_error : Times → InitErrorRequest → Session → Session × Rendered
  unfolding load_interop_server restore_error init_error send_init_error_response
      init_error_response render_interop_error store_invoke_error_trace_data
      get_valid_runtime_or_function_error_type
  serve_init_error t r s = with_server s (λ s.
      if is_restoring s
      then transition s (restore_error (function_error r) t.first s.runtime) with_trace
      else transition s (init_error t.first s.runtime) (init_delivered r))

-- `AwsRequestIDValidator`.
unfoldable pub aws_request_id_validator :
    String → (Session → Session × Rendered) → Session → Session × Rendered
unfolding load_interop_server get_current_invoke_id
aws_request_id_validator invoke_id next s = with_server s (λ s.
    if str_eq invoke_id "" || not (str_eq invoke_id (get_current_invoke_id s.server))
    then (s, invalid_request_id)
    else next s)
