-- ===== src/Rapi/Responses/Stuck.antt =====
-- What an answer of 202 promises, and what becomes of a runtime that announced an invalid mode.
use lambda_runtime_init.Core.Runtime
use lambda_runtime_init.Base.{
  ℕ, ◌≡◌, ◌≢◌, refl, sym, ap, ◌∙◌, inl, inr, Bool, true, false, Option, none, some, List, [],
  String, arith, Bool-cases,
}
use text.Mathlib.TextEquality.{eq_iff}
use lambda_runtime_init.Core.Runtime.Methods.{invocation_response}
use lambda_runtime_init.Rapidcore.Server.{
  InvokeContext, ServerError, response_too_large, Server, truncated_response, response_too_large_di,
  Result, ok, panics, waits, error, set_runtime_state, invoke_response_sent,
}
use lambda_runtime_init.Rapidcore.Server.Send.{
  Delivery, Sent, send_response, send_error_response, send_response_unsafe,
}
use lambda_runtime_init.Rapidcore.Server.Spec.{phase, replied}
use lambda_runtime_init.Appctx.{load_response_sender, found}
use lambda_runtime_init.Rapi.Session.{
  Session, Rendered, accepted, request_entity_too_large, truncated_http_request, panicked, Times,
  Json, response_sent_then, render_interop_error, invalid_state_transition,
  invalid_function_response_mode,
}
use lambda_runtime_init.Rapi.Transitions.{Renderer, serve_invocation_next}
use lambda_runtime_init.Rapi.Responses.{
  ResponseRequest, response_failed, response_answered, response_delivered,
  serve_invocation_response, is_mode, of_payload, store_trace, oversized_payload, after_too_large,
}
use lambda_runtime_init.Rapi.Responses.Laws.{state_of, serve-moved, moves, serve-refused}

-- A reply that was sent is the reply to the invoke that it names.
pub sent-replied :
    (max : ℕ) (id : String) (d : Delivery) (called : Bool) (s : Server) (o : Option InvokeContext)
    → s.invoke_ctx ≡ o
    → (send_response_unsafe max id d called s).result ≡ ok
    → phase (send_response_unsafe max id d called s).server ≡ replied id
unfolding send_response_unsafe
sent-replied max id d called s none e h = ground arith
sent-replied max id d called s (some c) e h = ground (arith, eq_iff id c.token.invoke_id)

response-replied :
    (max : ℕ) (id : String) (d : Delivery) (s : Server)
    → (send_response max id d s).result ≡ ok
    → phase (send_response max id d s).server ≡ replied id
unfolding send_response
response-replied max id d s h =
    let s' : Server = set_runtime_state invoke_response_sent s in
    sent-replied max id d true s' s'.invoke_ctx refl h

-- The answer after `ResponseSent` is the one that was to be given, and the server is not touched.
pub then-server :
    (t : Times) (r : Rendered) (s : Session) → (response_sent_then t r s).0.server ≡ s.server
unfolding response_sent_then
then-server t r s = ground arith

then-accepted :
    (t : Times) (r : Rendered) (s : Session)
    → (response_sent_then t r s).1 ≡ accepted
    → r ≡ accepted
unfolding response_sent_then
then-accepted t r s h = ground arith

then-other :
    (t : Times) (r : Rendered) (s : Session)
    → r ≢ accepted
    → (response_sent_then t r s).1 ≢ accepted
then-other t r s n h = n (then-accepted t r s h)

next-refused :
    (renderer : Renderer) (t : Times) (s : Session)
    → state_of s ≡ Runtime.invocation_response
    → (serve_invocation_next renderer t s).1 ≡ invalid_state_transition
unfolding serve_invocation_next
next-refused renderer t s h = ground (arith)

interop-accepted : (e : ServerError) → render_interop_error e ≢ accepted
unfolding render_interop_error
interop-accepted e = ground arith

too_large-differs : request_entity_too_large ≢ accepted
too_large-differs h = cc

truncated-differs : truncated_http_request ≢ accepted
truncated-differs h = cc

panicked-differs : panicked ≢ accepted
panicked-differs h = cc

mode-differs : invalid_function_response_mode ≢ accepted
mode-differs h = cc

refused-differs : invalid_state_transition ≢ accepted
refused-differs h = cc

module _ (json : Json) (max : ℕ) (message : ℕ → List ℕ) (t : Times) (r : ResponseRequest) where
  too_large-accepted :
      (n limit : ℕ) (s : Session) (sent : Sent)
      → (after_too_large json max t (response_too_large n limit) s sent).1 ≢ accepted
  too_large-accepted n limit s sent = ground (
    arith,
    then-other t request_entity_too_large (store_trace none (record s { server = sent.server }))
        too_large-differs,
    interop-accepted (response_too_large n limit),
  )

  failed-accepted :
      (e : ServerError) (s : Session) → (response_failed json max message t r e s).1 ≢ accepted
  unfolding response_failed
  failed-accepted (response_too_large n limit) s = too_large-accepted n limit s (
      send_error_response max r.invoke_id
        (of_payload (oversized_payload json max message limit) r.error_delivery) s.server)
  failed-accepted response_too_large_di s =
      then-other t request_entity_too_large s too_large-differs
  failed-accepted truncated_response s = then-other t truncated_http_request s truncated-differs
  failed-accepted e s = ground (arith, interop-accepted e)

  answered-by-replied :
      (sent : Sent) (s : Session) (x : Result)
      → sent.result ≡ x
      → ((x ≡ ok) → phase sent.server ≡ replied r.invoke_id)
      → (response_answered json max message t r sent s).1 ≡ accepted
      → phase (response_answered json max message t r sent s).0.server ≡ replied r.invoke_id
  unfolding response_answered
  answered-by-replied sent s ok e f h =
      rw (response_answered, e)
        (ap phase (then-server t accepted (record s { server = sent.server })) ∙ f refl)
  answered-by-replied sent s (error x) e f h =
      absurd
        (failed-accepted x (record s { server = sent.server }) (rw (response_answered, e) at h))
  answered-by-replied sent s panics e f h =
      absurd (panicked-differs (rw (response_answered, e) at h))
  answered-by-replied sent s waits e f h =
      absurd (panicked-differs (rw (response_answered, e) at h))

  delivered-replied :
      (s : Session)
      → (response_delivered json max message t r s).1 ≡ accepted
      → phase (response_delivered json max message t r s).0.server ≡ replied r.invoke_id
  unfolding response_delivered
  delivered-replied s h = elim (Bool-cases (is_mode r.function_response_mode)) [
    | inl m ↦
        let sent = send_response max r.invoke_id r.delivery s.server in
        rw (response_delivered, m)
          (answered-by-replied sent s sent.result refl
            (λ e. response-replied max r.invoke_id r.delivery s.server e)
            (rw (response_delivered, m) at h))
    | inr m ↦ absurd (mode-differs (rw (response_delivered, m) at h))
  ]

  -- A response that is answered with 202, where a response sender is in the context, was delivered:
  -- the server has sent the reply of the invoke that the request names.
  pub accepted-replied :
      (s : Session) (w : ℕ)
      → load_response_sender s.app ≡ found w
      → (serve_invocation_response json max message t r s).1 ≡ accepted
      → phase (serve_invocation_response json max message t r s).0.server ≡ replied r.invoke_id
  accepted-replied s w l h = elim (moves t s) [
    | inl (running, out, at) ↦
        let e = serve-moved json max message t r s w l out in
        let s' : Session = record s { runtime = (invocation_response t.first s.runtime).0 } in
        ap (λ p. phase p.0.server) e ∙ delivered-replied s' (sym (ap (λ p. p.1) e) ∙ h)
    | inr (other, out) ↦
        absurd
          (refused-differs (sym (ap (λ p. p.1) (serve-refused json max message t r s w l out)) ∙ h))
  ]

  -- A running runtime whose response has an invalid mode is answered 400, and it can ask for nothing
  -- more: its next request for an invoke, whenever it comes, is answered 403.
  pub invalid_mode-stuck :
      (s : Session) (w : ℕ) (renderer : Renderer) (later : Times)
      → load_response_sender s.app ≡ found w
      → state_of s ≡ Runtime.running
      → is_mode r.function_response_mode ≡ false
      → let (s', answer) = serve_invocation_response json max message t r s in
        (answer ≡ invalid_function_response_mode)
        × ((serve_invocation_next renderer later s').1 ≡ invalid_state_transition)
  unfolding response_delivered
  invalid_mode-stuck s w renderer later l running m = elim (moves t s) [
    | inl (_, out, at) ↦
        let e = serve-moved json max message t r s w l out in
        let s' : Session = record s { runtime = (invocation_response t.first s.runtime).0 } in
        (
          ap (λ p. p.1) e ∙ (rw (response_delivered, m) refl),
          ap (λ p. (serve_invocation_next renderer later p.0).1) e
              ∙ rw (response_delivered, m)
                  (next-refused renderer later
                    (record s' {
                      server =
                          (send_error_response max r.invoke_id (of_payload [] r.error_delivery)
                            s.server).server;
                    })
                    at),
        )
    | inr (other, out) ↦ absurd (other running)
  ]
