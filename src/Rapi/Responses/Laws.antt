-- ===== src/Rapi/Responses/Laws.antt =====
-- How the runtime's state and the invoke's reply stand once a response has been answered.
use lambda_runtime_init.Core.Runtime
use lambda_runtime_init.Base.{
  ℕ, ◌≡◌, refl, ◌⊎◌, inl, inr, Bool, true, false, none, some, List, str_eq, arith, Bool-cases, ◌≢◌,
  sym, subst, ap, ◌∙◌,
}
use lambda_runtime_init.Core.Error.{Error, not_allowed}
use lambda_runtime_init.Core.Runtime.{Runtime}
use lambda_runtime_init.Core.Runtime.Methods.{invocation_response, response_sent}
use lambda_runtime_init.Core.Thread.{Object, Outcome, returned}
use lambda_runtime_init.Rapidcore.Server.{
  ServerError, response_too_large, response_too_large_di, truncated_response, Result, ok, panics,
  waits, error,
}
use lambda_runtime_init.Rapidcore.Server.Send.{Sent, send_response, send_error_response}
use lambda_runtime_init.Appctx.{load_response_sender, found}
use lambda_runtime_init.Rapi.Session.{
  Session, Rendered, accepted, request_entity_too_large, panicked, bad_request, Times, Json,
  transition, response_sent_then, render_interop_error, invalid_state_transition,
  truncated_http_request,
}
use lambda_runtime_init.Rapi.Responses.{
  ResponseRequest, response_failed, response_answered, response_delivered,
  serve_invocation_response, with_sender, is_mode, oversized_payload, of_payload, after_too_large,
  store_trace,
}

-- The answers before which the handler calls `ResponseSent`.
abbrev pub closes : Rendered → Bool
closes accepted = true
closes request_entity_too_large = true
closes (bad_request t) = str_eq t "TruncatedHTTPRequest"
closes _ = false

abbrev pub state_of : Session → Runtime.RuntimeState
state_of s = s.runtime.self.current_state

-- The runtime has sent its response, or it is still at it, or the handler panicked.
abbrev pub Stands : Runtime.RuntimeState → Session × Rendered → Type 0
Stands at (s', r) =
    ((closes r ≡ true) × (state_of s' ≡ Runtime.response_sent))
    ⊎ ((closes r ≡ false) × (state_of s' ≡ at))
    ⊎ (r ≡ panicked)

abbrev pub Sends : Runtime.RuntimeState → Type 0
Sends Runtime.invocation_response = Unit {0}
Sends Runtime.invocation_error_response = Unit {0}
Sends _ = ⊥

-- `ResponseSent` never waits, and leaves the runtime in its state, even where the gate refuses.
pub response_sent_lem :
    (now later : ℕ) (o : Object Runtime)
    → Sends o.self.current_state
    → let (o', out) = response_sent now later o in
      (o'.self.current_state ≡ Runtime.response_sent)
      × ((out ≡ returned none) ⊎ ((e : Error) × (out ≡ returned (some e))))
unfolding response_sent
response_sent_lem now later o h = ground arith

pub sent-Stands :
    (at : Runtime.RuntimeState) (t : Times) (r : Rendered) (s : Session)
    → Sends (state_of s)
    → closes r ≡ true
    → Stands at (response_sent_then t r s)
unfolding response_sent_then
sent-Stands at t r s h c = ground (arith, response_sent_lem t.second t.third s.runtime h)

abbrev AtResponse : Session → Type 0
AtResponse s = state_of s ≡ Runtime.invocation_response

module _ (json : Json) (max : ℕ) (message : ℕ → List ℕ) (t : Times) where
  sends : (s : Session) → AtResponse s → Sends (state_of s)
  sends s h = subst Sends (sym h) tt

  too_large-Stands :
      (n limit : ℕ) (s : Session) (sent : Sent)
      → AtResponse s
      → Stands Runtime.invocation_response
          (after_too_large json max t (response_too_large n limit) s sent)
  unfolding render_interop_error
  too_large-Stands n limit s sent h = ground (
    arith,
    sent-Stands Runtime.invocation_response t request_entity_too_large
        (store_trace none (record s { server = sent.server })) (sends s h) refl,
  )

  failed-Stands :
      (r : ResponseRequest) (e : ServerError) (s : Session)
      → AtResponse s
      → Stands Runtime.invocation_response (response_failed json max message t r e s)
  unfolding response_failed render_interop_error
  failed-Stands r (response_too_large n limit) s h =
      let sent =
        send_error_response max r.invoke_id
          (of_payload (oversized_payload json max message limit) r.error_delivery) s.server in
      too_large-Stands n limit s sent h
  failed-Stands r response_too_large_di s h =
      sent-Stands Runtime.invocation_response t request_entity_too_large s (sends s h) refl
  failed-Stands r truncated_response s h =
      sent-Stands Runtime.invocation_response t truncated_http_request s (sends s h) refl
  failed-Stands r e s h = ground arith

  answered-by :
      (r : ResponseRequest) (sent : Sent) (s : Session) (x : Result)
      → sent.result ≡ x
      → AtResponse s
      → Stands Runtime.invocation_response (response_answered json max message t r sent s)
  unfolding response_answered
  answered-by r sent s ok e h =
      rw (response_answered, e)
        (sent-Stands Runtime.invocation_response t accepted (record s { server = sent.server })
          (sends s h) refl)
  answered-by r sent s (error x) e h =
      rw (response_answered, e) (failed-Stands r x (record s { server = sent.server }) h)
  answered-by r sent s panics e h = rw (response_answered, e) (inr (inr refl))
  answered-by r sent s waits e h = rw (response_answered, e) (inr (inr refl))

  answered-Stands :
      (r : ResponseRequest) (sent : Sent) (s : Session)
      → AtResponse s
      → Stands Runtime.invocation_response (response_answered json max message t r sent s)
  answered-Stands r sent s h = answered-by r sent s sent.result refl h

  delivered-Stands :
      (r : ResponseRequest) (s : Session)
      → AtResponse s
      → Stands Runtime.invocation_response (response_delivered json max message t r s)
  unfolding response_delivered
  delivered-Stands r s h = elim (Bool-cases (is_mode r.function_response_mode)) [
    | inl m ↦
        rw (response_delivered, m)
          (answered-Stands r (send_response max r.invoke_id r.delivery s.server) s h)
    | inr m ↦ rw (response_delivered, m) (inr (inl (refl, h)))
  ]

pub moves :
    (t : Times) (s : Session)
    → ((state_of s ≡ Runtime.running)
        × ((invocation_response t.first s.runtime).1 ≡ returned none)
        × ((invocation_response t.first s.runtime).0.self.current_state
            ≡ Runtime.invocation_response))
      ⊎ ((state_of s ≢ Runtime.running)
          × (invocation_response t.first s.runtime ≡ (s.runtime, returned (some not_allowed))))
unfolding invocation_response
moves t s = ground arith

pub with_sender-found :
    (s : Session) (w : ℕ) (next : Session → Session × Rendered)
    → load_response_sender s.app ≡ found w
    → with_sender s next ≡ next s
with_sender-found s w next h = rw (h, with_sender) refl

pub transition-moved :
    (s : Session) (p : Object Runtime × Outcome) (next : Session → Session × Rendered)
    → p.1 ≡ returned none
    → transition s p next ≡ next (record s { runtime = p.0 })
transition-moved s (o, out) next h = rw h refl

pub transition-refused :
    (s : Session) (p : Object Runtime × Outcome) (next : Session → Session × Rendered) (e : Error)
    → p ≡ (s.runtime, returned (some e))
    → transition s p next ≡ (s, invalid_state_transition)
transition-refused s p next e h = rw h refl

module _ (json : Json) (max : ℕ) (message : ℕ → List ℕ) (t : Times) (r : ResponseRequest)
    (s : Session) (w : ℕ) where
  pub serve-moved :
      load_response_sender s.app ≡ found w
      → (invocation_response t.first s.runtime).1 ≡ returned none
      → serve_invocation_response json max message t r s
        ≡ response_delivered json max message t r
            (record s { runtime = (invocation_response t.first s.runtime).0 })
  unfolding serve_invocation_response
  serve-moved h out =
      with_sender-found s w
        (λ s.
          transition s (invocation_response t.first s.runtime)
            (response_delivered json max message t r))
        h
      ∙ transition-moved s (invocation_response t.first s.runtime)
          (response_delivered json max message t r) out

  pub serve-refused :
      load_response_sender s.app ≡ found w
      → invocation_response t.first s.runtime ≡ (s.runtime, returned (some not_allowed))
      → serve_invocation_response json max message t r s ≡ (s, invalid_state_transition)
  unfolding serve_invocation_response
  serve-refused h out =
      with_sender-found s w
        (λ s.
          transition s (invocation_response t.first s.runtime)
            (response_delivered json max message t r))
        h
      ∙ transition-refused s (invocation_response t.first s.runtime)
          (response_delivered json max message t r) not_allowed out

-- A response to an invoke, with an interop server in the context: where the runtime is not `Running`
-- the answer is 403 and nothing at all has changed. Otherwise either the handler panicked; or it
-- answered 202, 413 or that the request was truncated, and the runtime has sent its response; or it
-- answered anything else, and the runtime still stands in `InvocationResponse`.
pub serve_invocation_response-Stands :
    (json : Json) (max : ℕ) (message : ℕ → List ℕ) (t : Times) (r : ResponseRequest) (s : Session)
    (w : ℕ)
    → load_response_sender s.app ≡ found w
    → let (s', answer) = serve_invocation_response json max message t r s in
      ((state_of s ≡ Runtime.running) × Stands Runtime.invocation_response (s', answer))
      ⊎ ((state_of s ≢ Runtime.running) × (s' ≡ s) × (answer ≡ invalid_state_transition))
serve_invocation_response-Stands json max message t r s w h = elim (moves t s) [
  | inl (running, out, at) ↦ inl (
    running,
    subst (Stands Runtime.invocation_response) (sym (serve-moved json max message t r s w h out)) (
        delivered-Stands json max message t r
          (record s { runtime = (invocation_response t.first s.runtime).0 }) at),
  )
  | inr (other, out) ↦
      let e = serve-refused json max message t r s w h out in
      inr (other, ap (λ p. p.0) e, ap (λ p. p.1) e)
]
