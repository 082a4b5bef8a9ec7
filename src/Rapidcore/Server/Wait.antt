-- ===== src/Rapidcore/Server/Wait.antt =====
-- internal/lambda/rapidcore/server.go: init, invoke, release, reset and shutdown, and what they wait
-- for. A method that selects among channels is given the one that it reads from.
use lambda_runtime_init.Base.{ℕ, Bool, true, Option, none, some, String, str_eq, if◌then◌else◌}
use lambda_runtime_init.Base.Int.{ℤ}
use lambda_runtime_init.Rapidcore.Server.{
  ServerError, reset_failed, invoke_response_already_written, invoke_reservation_done,
  init_reset_received, init_done_failed, invoke_done_failed, release_reservation_done, idle,
  initializing, invoking, not_started, init_complete, init_failed, invoke_complete,
  InvokeResponseMetrics, InitFailure, open_chan, closed_chan, sending, Server, Result, ok, panics,
  waits, error, set_rapid_phase, set_runtime_state, set_invoke_timeout, set_reply_stream, release,
  clear,
}
use lambda_runtime_init.Rapidcore.Server.Send.{Delivery, try_send_default_error_response}

-- The sandbox's init is started; it makes an init context.
unfoldable pub init : ℤ → Server → Server
unfolding set_invoke_timeout set_rapid_phase
init timeout s = record (set_rapid_phase initializing (set_invoke_timeout timeout s)) {
  init_failures = some open_chan;
  has_init_context = true;
}

-- The goroutine of `Init`: a failure is offered to whoever waits for it, or the channel is closed.
unfoldable pub await_init_completion : Option InitFailure → Server → Server
await_init_completion none s = record s { init_failures = some closed_chan }
await_init_completion (some f) s = record s { init_failures = some (sending f) }

abbrev init_failure_error : InitFailure → ServerError
init_failure_error f = if f.reset_received then init_reset_received else init_done_failed

-- A received failure unblocks the sender, which closes the channel.
unfoldable pub await_initialized_unsafe : Server → Server × Result
unfolding set_runtime_state
await_initialized_unsafe s = elim s.init_failures [
  | none ↦ (s, waits)
  | some chan ↦ elim chan [
    | open_chan ↦ (s, waits)
    | closed_chan ↦ (s, ok)
    | sending f ↦ (
      record (set_runtime_state init_failed s) { init_failures = some closed_chan },
      error (init_failure_error f),
    )
  ]
]

abbrev after_await : Server × Result → Server × Result
after_await (s, ok) = (set_runtime_state init_complete s, ok)
after_await (s, error e) = (set_runtime_state init_failed (release s).0, error e)
after_await (s, panics) = (s, panics)
after_await (s, waits) = (s, waits)

unfoldable pub await_initialized : Server → Server × Result
unfolding await_initialized_unsafe release set_runtime_state
await_initialized s = after_await (await_initialized_unsafe s)

abbrev begin_rest : Bool → Server × Result → Server × Result
begin_rest already_written (s, ok) = (
  set_rapid_phase invoking s,
  if already_written then error invoke_response_already_written else ok,
)
begin_rest already_written (s, error e) = (s, error e)
begin_rest already_written (s, panics) = (s, panics)
begin_rest already_written (s, waits) = (s, waits)

-- `FastInvoke` up to its goroutine; `already_written` says that a response waits to be measured.
unfoldable pub fast_invoke : ℕ → Bool → Bool → Server → Server × Result
unfolding set_reply_stream set_rapid_phase
fast_invoke w direct already_written s = begin_rest already_written (set_reply_stream w direct s)

-- How `invoker.Wait` ends. A failure has a default response, which is sent if no other was.
pub data InvokeOutcome : Type 0 where
  succeeded reset_received failed_without_default : InvokeOutcome
  failed : String → InvokeOutcome

-- A send on the channel, whose buffer has one place.
abbrev put_done : String → Server × Result → Server × Result
put_done e (s, ok) = elim s.invoke_done [
  | none ↦ (record s { invoke_done = some e }, ok)
  | some _ ↦ (s, waits)
]
put_done e (s, error x) = (s, error x)
put_done e (s, panics) = (s, panics)
put_done e (s, waits) = (s, waits)

abbrev completes : Server × Result → Server × Result
completes (s, ok) = (set_runtime_state invoke_complete s, ok)
completes (s, waits) = (s, waits)
completes (s, panics) = (s, panics)
completes (s, error e) = (s, error e)

-- The goroutine of `FastInvoke` once the sandbox is done; the default response is the cached one of
-- init, if there is one, and reaches its reader as `d` says.
unfoldable pub invoke_finished : ℕ → Delivery → InvokeOutcome → Server → Server × Result
unfolding set_runtime_state try_send_default_error_response
invoke_finished max d outcome s =
    if s.has_invoker
    then elim outcome [
      | reset_received ↦ (s, ok)
      | failed_without_default ↦ (s, panics)
      | failed e ↦
          let r = try_send_default_error_response max d s in put_done e (r.server, r.result)
      | succeeded ↦ put_done "" (s, ok)
    ]
    else completes (put_done "" (s, ok))

-- The last `select` of `FastInvoke`: the metrics of a response, or the end of the reservation.
unfoldable pub fast_invoke_ends : Option InvokeResponseMetrics → Server → Server × Result
fast_invoke_ends (some m) s = (record s { invoke_response_metrics = some m }, ok)
fast_invoke_ends none s = elim s.reservation [
  | none ↦ (s, waits)
  | some done ↦ (s, if done then error invoke_reservation_done else waits)
]

pub data Select : Type 0 where
  reads_done reads_cancel : Select

abbrev is_released : String → Server → Server × Result
is_released e s =
    if str_eq e ""
    then ((release s).0, ok)
    else (s, error (if str_eq e "InitDoneFailed" then init_done_failed else invoke_done_failed))

abbrev release_ends : Server × Result → Server × Result
release_ends (s, waits) = (s, waits)
release_ends (s, ok) = (set_runtime_state invoke_complete (set_rapid_phase idle s), ok)
release_ends (s, panics) = (set_runtime_state invoke_complete (set_rapid_phase idle s), panics)
release_ends (s, error e) = (set_runtime_state invoke_complete (set_rapid_phase idle s), error e)

unfoldable pub await_release : Select → Server → Server × Result
unfolding release set_rapid_phase set_runtime_state
await_release reads_done s = release_ends (elim s.invoke_done [
  | none ↦ (s, waits)
  | some e ↦ is_released e (record s { invoke_done = none })
])
await_release reads_cancel s = release_ends (elim s.reservation [
  | none ↦ (s, waits)
  | some done ↦ (s, if done then error release_reservation_done else waits)
])

-- `interrupted` are the metrics of a response that the reset interrupted; `error_type` is what the
-- sandbox's reset answers.
unfoldable pub reset : Option InvokeResponseMetrics → String → Server → Server × Result
unfolding clear set_rapid_phase set_runtime_state release
reset interrupted error_type s =
    let measured : Server = elim interrupted [
      | none ↦ s
      | some m ↦ record s { invoke_response_metrics = some m }
    ] in
    let s' = set_runtime_state not_started (set_rapid_phase idle (clear measured)) in
    ((release s').0, if str_eq error_type "" then ok else error (reset_failed error_type))

unfoldable pub shutdown : Server → Server
unfolding set_rapid_phase set_runtime_state
shutdown s = set_runtime_state not_started (set_rapid_phase idle s)
