-- ===== src/Rapidcore/Server.antt =====
-- internal/lambda/rapidcore/server.go: the reservation of an invoke, and the server's other state.
-- Each method, or the part of one that holds the mutex, is a step.
pub mod Send
pub mod Wait
pub mod Invoke
pub mod Steps
pub mod Spec
pub mod Outcomes
use lambda_runtime_init.Base.{
  ℕ, Bool, true, false, not, ◌||◌, Option, none, some, List, String, str_eq, if◌then◌else◌, or_else,
}
use lambda_runtime_init.Base.Int.{ℤ, pos, negsuc, wrap64, ◌+ℤ◌}
use lambda_runtime_init.Core.DirectInvoke.{Token, InvokeResponseMode}

-- The errors of the package and of `interop` that a method returns, and those of a writer.
pub data ServerError : Type 0 where
  not_reserved already_reserved already_replied already_invocating : ServerError
  invalid_invoke_id response_sent reply_stream_not_available : ServerError
  failed_to_read failed_to_write internal_state_getter_not_set : ServerError
  response_too_large : ℕ → ℕ → ServerError
  response_too_large_di truncated_response internal_platform_error : ServerError
  direct_invoke_failed reset_failed : String → ServerError
  invoke_response_already_written invoke_reservation_done : ServerError
  init_not_started invoke_timed_out : ServerError
  init_reset_received init_done_failed invoke_done_failed release_reservation_done : ServerError

pub data RapidPhase : Type 0 where
  idle initializing invoking : RapidPhase

pub data RuntimeState : Type 0 where
  not_started init_error init_complete init_failed : RuntimeState
  invoke_response_sent invoke_error ready invoke_complete : RuntimeState

-- A writer of an HTTP response is an address.
pub record InvokeContext : Type 0 where
  pub token : Token
  pub reply_sent : Bool
  pub reply_stream : Option ℕ
  pub direct : Bool

pub record InvokeResponseMetrics : Type 0 where
  pub start_reading : ℤ
  pub finish_reading : ℤ
  pub time_shaped_ns : ℤ
  pub produced_bytes : ℤ
  pub outbound_throughput_bps : ℤ
  pub function_response_mode : InvokeResponseMode
  pub runtime_called_response : Bool

pub record ErrorInvokeResponse : Type 0 where
  pub content_type : String
  pub function_response_mode : String
  pub error_type : List ℕ
  pub message : List ℕ
  pub payload : List ℕ

pub record InitFailure : Type 0 where
  pub reset_received : Bool
  pub error_type : String
  pub error_message : String

-- The unbuffered channel `initFailures`: nobody sends yet, or one waits to send, or it is closed.
pub data InitFailures : Type 0 where
  open_chan closed_chan : InitFailures
  sending : InitFailure → InitFailures

-- `reservation` says whether the reservation context is done; `invoke_done` is the buffer, of one,
-- of `InvokeDoneChan`, with the error type. The last two are of the sandbox context.
pub record Server : Type 0 where
  pub invoke_ctx : Option InvokeContext
  pub invoke_timeout : ℤ
  pub reservation : Option Bool
  pub rapid_phase : RapidPhase
  pub runtime_state : RuntimeState
  pub has_internal_state_getter : Bool
  pub has_init_context : Bool
  pub has_invoker : Bool
  pub init_failures : Option InitFailures
  pub cached_init_error_response : Option ErrorInvokeResponse
  pub invoke_done : Option String
  pub runtime_started_time : ℤ
  pub invoke_response_metrics : Option InvokeResponseMetrics

-- A call returns nil or an error, or it panics, or it waits on a channel.
pub data Result : Type 0 where
  ok panics waits : Result
  error : ServerError → Result

unfoldable pub new_server : Server
new_server = record {
  invoke_ctx = none;
  invoke_timeout = pos 0;
  reservation = none;
  rapid_phase = idle;
  runtime_state = not_started;
  has_internal_state_getter = false;
  has_init_context = false;
  has_invoker = false;
  init_failures = none;
  cached_init_error_response = none;
  invoke_done = none;
  runtime_started_time = negsuc 0;
  invoke_response_metrics = none;
}

unfoldable pub set_rapid_phase : RapidPhase → Server → Server
set_rapid_phase phase s = record s { rapid_phase = phase }

unfoldable pub set_runtime_state : RuntimeState → Server → Server
set_runtime_state state s = record s { runtime_state = state }

unfoldable pub set_invoke_timeout : ℤ → Server → Server
set_invoke_timeout timeout s = record s { invoke_timeout = timeout }

-- What `Reserve` is given, with the two UUIDs that it makes.
pub record Reservation : Type 0 where
  pub id : String
  pub trace_id : String
  pub lambda_segment_id : String
  pub new_invoke_id : String
  pub new_reservation_token : String

unfoldable pub reserved_token : String → Reservation → ℤ → Token
reserved_token invoke_id r timeout = record {
  reservation_token = r.new_reservation_token;
  invoke_id = invoke_id;
  tenant_id = "";
  version_id = "1";
  function_timeout = timeout;
  invack_deadline_ns = pos 9_223_372_036_854_775_807;
  trace_id = r.trace_id;
  lambda_segment_id = r.lambda_segment_id;
  need_debug_logs = false;
  restore_duration_ns = pos 0;
  restore_start_time_monotime = pos 0;
}

unfoldable pub set_new_invoke_context : String → Reservation → Server → Server × Result
unfolding reserved_token
set_new_invoke_context invoke_id r s = elim s.invoke_ctx [
  | some _ ↦ (s, error already_reserved)
  | none ↦ (
    record s {
      invoke_ctx = some (record {
        token = reserved_token invoke_id r s.invoke_timeout;
        reply_sent = false;
        reply_stream = none;
        direct = false;
      });
      reservation = some false;
    },
    ok,
  )
]

abbrev pub invoke_id_of : Reservation → String
invoke_id_of r = if str_eq r.id "" then r.new_invoke_id else r.id

-- Once the context is set, `Reserve` asks the init context for an invoker, and for the state.
abbrev pub reserve_rest : Server × Result → Server × Result
reserve_rest (s, error e) = (s, error e)
reserve_rest (s, panics) = (s, panics)
reserve_rest (s, waits) = (s, waits)
reserve_rest (s, ok) =
    if s.has_init_context
    then (
      record s { has_invoker = true },
      if s.has_internal_state_getter then ok else error internal_state_getter_not_set,
    )
    else (s, panics)

unfoldable pub reserve : Reservation → Server → Server × Result
unfolding set_new_invoke_context
reserve r s = reserve_rest (set_new_invoke_context (invoke_id_of r) r s)

unfoldable pub set_reply_stream : ℕ → Bool → Server → Server × Result
set_reply_stream w direct s = elim s.invoke_ctx [
  | none ↦ (s, error not_reserved)
  | some c ↦ if c.reply_sent then (s, error already_replied) else elim c.reply_stream [
    | some _ ↦ (s, error already_invocating)
    | none ↦
        (record s { invoke_ctx = some (record c { reply_stream = some w; direct = direct }) }, ok)
  ]
]

-- The reservation context is done, if there is one.
abbrev cancelled : Option Bool → Option Bool
cancelled none = none
cancelled (some _) = some true

unfoldable pub release : Server → Server × Result
release s = elim s.invoke_ctx [
  | none ↦ (s, error not_reserved)
  | some _ ↦ (
    record s {
      invoke_ctx = none;
      reservation = cancelled s.reservation;
      runtime_started_time = negsuc 0;
      invoke_response_metrics = none;
    },
    ok,
  )
]

unfoldable pub get_current_invoke_id : Server → String
get_current_invoke_id s = elim s.invoke_ctx [ none ↦ "" | some c ↦ c.token.invoke_id ]

-- `Clear` ignores what `Release` returns.
unfoldable pub clear : Server → Server
unfolding release
clear s = (release (record s { invoke_done = none })).0

unfoldable pub set_cached_init_error_response : ErrorInvokeResponse → Server → Server
set_cached_init_error_response e s = record s { cached_init_error_response = some e }
