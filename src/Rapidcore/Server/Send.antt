-- ===== src/Rapidcore/Server/Send.antt =====
-- internal/lambda/rapidcore/server.go: the replies to an invoke.
use lambda_runtime_init.Base.{
  ℕ, Bool, true, false, Option, none, some, List, String, str_eq, if◌then◌else◌, ltb, length,
}
use lambda_runtime_init.Base.Int.{ℤ, pos, negsuc}
use lambda_runtime_init.Core.DirectInvoke.{buffered}
use lambda_runtime_init.Rapidcore.Server.{
  ServerError, invalid_invoke_id, response_sent, reply_stream_not_available, failed_to_read,
  failed_to_write, response_too_large, invoking, init_error, invoke_response_sent, invoke_error,
  InvokeContext, InvokeResponseMetrics, ErrorInvokeResponse, Server, Result, ok, panics, waits,
  error, set_runtime_state, set_cached_init_error_response, get_current_invoke_id,
}

-- A payload and what becomes of it outside: the bytes that reading it gives (`none` for an error), the
-- bytes that the stream takes (`none` for an error), the clock before and after, and what
-- `SendDirectInvokeResponse` returns and measures.
pub record Delivery : Type 0 where
  pub read : Option (List ℕ)
  pub written : Option ℕ
  pub start_time : ℤ
  pub finish_time : ℤ
  pub direct_error : Option ServerError
  pub direct_metrics : Option InvokeResponseMetrics

-- What a reply put on its stream: a body, or whatever a direct invoke streams.
pub data Reply : Type 0 where
  body : ℕ → List ℕ → Reply
  streamed : ℕ → Reply

-- A call, with the reply and the metrics that it sent off.
pub record Sent : Type 0 where
  pub server : Server
  pub result : Result
  pub reply : Option Reply
  pub metrics : Option InvokeResponseMetrics

abbrev refused : Server → ServerError → Sent
refused s e = record { server = s; result = error e; reply = none; metrics = none }

abbrev mark_sent : InvokeContext → Server → Server
mark_sent c s = record s { invoke_ctx = some (record c { reply_sent = true; direct = false }) }

abbrev buffered_metrics : Delivery → ℕ → Bool → InvokeResponseMetrics
buffered_metrics d written runtime_called = record {
  start_reading = d.start_time;
  finish_reading = d.finish_time;
  time_shaped_ns = negsuc 0;
  produced_bytes = pos written;
  outbound_throughput_bps = negsuc 0;
  function_response_mode = buffered;
  runtime_called_response = runtime_called;
}

abbrev result_of : Option ServerError → Result
result_of none = ok
result_of (some e) = error e

-- The branch of a buffered reply: it is read whole, checked, and written at once.
unfoldable pub send_buffered : ℕ → Delivery → Bool → ℕ → InvokeContext → Server → Sent
send_buffered max d runtime_called w c s = elim d.read [
  | none ↦ refused s failed_to_read
  | some data_read ↦
      if ltb max (length data_read)
      then refused s (response_too_large (length data_read) max)
      else elim d.written [
        | none ↦ refused s failed_to_write
        | some n ↦ record {
          server = mark_sent c s;
          result = ok;
          reply = some (body w data_read);
          metrics = some (buffered_metrics d n runtime_called);
        }
      ]
]

-- A direct reply counts as sent also when it ended with an error.
unfoldable pub send_direct : Delivery → ℕ → InvokeContext → Server → Sent
send_direct d w c s = record {
  server = mark_sent c s;
  result = result_of d.direct_error;
  reply = some (streamed w);
  metrics = d.direct_metrics;
}

unfoldable pub send_response_unsafe : ℕ → String → Delivery → Bool → Server → Sent
unfolding send_buffered send_direct
send_response_unsafe max invoke_id d runtime_called s = elim s.invoke_ctx [
  | none ↦ refused s invalid_invoke_id
  | some c ↦
      if str_eq invoke_id c.token.invoke_id
      then if c.reply_sent then refused s response_sent else elim c.reply_stream [
        | none ↦ refused s reply_stream_not_available
        | some w ↦
            if c.direct then send_direct d w c s else send_buffered max d runtime_called w c s
      ]
      else refused s invalid_invoke_id
]

unfoldable pub send_response : ℕ → String → Delivery → Server → Sent
unfolding send_response_unsafe set_runtime_state
send_response max invoke_id d s =
    send_response_unsafe max invoke_id d true (set_runtime_state invoke_response_sent s)

unfoldable pub send_error_response : ℕ → String → Delivery → Server → Sent
unfolding send_response_unsafe set_runtime_state
send_error_response max invoke_id d s =
    send_response_unsafe max invoke_id d false (set_runtime_state invoke_error s)

-- While an invoke is under way (a suppressed init) the error is the reply; else it is kept.
abbrev is_invoking : Server → Bool
is_invoking s = elim s.rapid_phase [ invoking ↦ true | _ ↦ false ]

unfoldable pub send_init_error_response : ℕ → ErrorInvokeResponse → Delivery → Server → Sent
unfolding send_error_response set_cached_init_error_response set_runtime_state get_current_invoke_id
send_init_error_response max e d s =
    if is_invoking s then send_error_response max (get_current_invoke_id s) d s else record {
      server = set_runtime_state init_error (set_cached_init_error_response e s);
      result = ok;
      reply = none;
      metrics = none;
    }

-- Any error but `ErrResponseSent` panics.
abbrev panic_unless_sent : Sent → Sent
panic_unless_sent r = record r {
  result = elim r.result [
    | ok ↦ ok
    | panics ↦ panics
    | waits ↦ waits
    | error e ↦ elim e [ response_sent ↦ ok | _ ↦ panics ]
  ];
}

unfoldable pub try_send_default_error_response : ℕ → Delivery → Server → Sent
unfolding send_error_response get_current_invoke_id
try_send_default_error_response max d s =
    panic_unless_sent (send_error_response max (get_current_invoke_id s) d s)
