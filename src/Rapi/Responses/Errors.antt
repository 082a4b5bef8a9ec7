-- ===== src/Rapi/Responses/Errors.antt =====
-- How the runtime's error response to an invoke is answered.
use lambda_runtime_init.Core.Runtime
use lambda_runtime_init.Base.{
  ℕ, ◌≡◌, ◌≢◌, refl, sym, subst, ap, ◌∙◌, ◌⊎◌, inl, inr, false, Option, none, some, List, String,
  arith,
}
use lambda_runtime_init.Core.Error.{not_allowed}
use lambda_runtime_init.Core.Runtime.Methods.{invocation_error_response}
use lambda_runtime_init.Core.Thread.{Object, Outcome, returned}
use lambda_runtime_init.Rapidcore.Server.{
  ServerError, Server, Result, ok, panics, waits, error, set_runtime_state, invoke_error,
}
use lambda_runtime_init.Rapidcore.Server.Send.{Sent, send_error_response}
use lambda_runtime_init.Rapidcore.Server.Spec.{phase, replied}
use lambda_runtime_init.Appctx.{
  load_response_sender, found, load_invoke_error_trace_data, invoke_error_trace_data_key,
  trace_data, store_invoke_error_trace_data, ApplicationContext,
}
use lambda_runtime_init.Appctx.Laws.{load-store}
use lambda_runtime_init.Rapi.Session.{
  Session, Rendered, accepted, panicked, Times, Json, transition, response_sent_then,
  render_interop_error, invalid_state_transition, invalid_request_id,
}
use lambda_runtime_init.Rapi.Responses.{
  ErrorRequest, error_body, error_response, error_answered, error_delivered, serve_invocation_error,
  store_trace, of_payload,
}
use lambda_runtime_init.Rapi.Responses.Laws.{
  state_of, Sends, response_sent_lem, with_sender-found, transition-moved, transition-refused,
}
use lambda_runtime_init.Rapi.Responses.Stuck.{sent-replied}

-- What can become of an error with a cause, for a runtime that was running.
abbrev pub Errs : String → Option (List ℕ) → Session × Rendered → Type 0
Errs id cause (s', answer) =
    ((answer ≡ accepted)
      × (phase s'.server ≡ replied id)
      × (state_of s' ≡ Runtime.response_sent)
      × (load_invoke_error_trace_data s'.app ≡ found cause))
    ⊎ ((answer ≡ invalid_request_id) × (state_of s' ≡ Runtime.invocation_error_response))
    ⊎ (answer ≡ panicked)

trace-loaded :
    (cause : Option (List ℕ)) (a : ApplicationContext)
    → load_invoke_error_trace_data (store_invoke_error_trace_data cause a) ≡ found cause
unfolding load_invoke_error_trace_data store_invoke_error_trace_data
trace-loaded cause a =
    rw
      (
        load_invoke_error_trace_data,
        load-store invoke_error_trace_data_key invoke_error_trace_data_key (trace_data cause) a,
      )
      refl

interop-cases :
    (e : ServerError)
    → (render_interop_error e ≡ invalid_request_id) ⊎ (render_interop_error e ≡ panicked)
unfolding render_interop_error
interop-cases e = ground arith

then-Errs :
    (id : String) (cause : Option (List ℕ)) (t : Times) (s : Session)
    → Sends (state_of s)
    → phase s.server ≡ replied id
    → load_invoke_error_trace_data s.app ≡ found cause
    → Errs id cause (response_sent_then t accepted s)
unfolding response_sent_then
then-Errs id cause t s h p l = ground (arith, response_sent_lem t.second t.third s.runtime h)

module _ (json : Json) (max : ℕ) (t : Times) (r : ErrorRequest) where
  error_answered-by :
      (s : Session) (sent : Sent) (x : Result)
      → sent.result ≡ x
      → ((x ≡ ok) → phase sent.server ≡ replied r.invoke_id)
      → state_of s ≡ Runtime.invocation_error_response
      → Errs r.invoke_id (error_body json r).cause (error_answered json t r s sent)
  error_answered-by s sent ok e f h = rw e (
      then-Errs r.invoke_id (error_body json r).cause t
        (store_trace (error_body json r).cause (record s { server = sent.server }))
        (subst Sends (sym h) tt) (f refl) (trace-loaded (error_body json r).cause s.app))
  error_answered-by s sent (error x) e f h =
      rw e (elim (interop-cases x) [ inl i ↦ inr (inl (i, h)) | inr p ↦ inr (inr p) ])
  error_answered-by s sent panics e f h = rw e (inr (inr refl))
  error_answered-by s sent waits e f h = rw e (inr (inr refl))

  error_delivered-Errs :
      (s : Session)
      → state_of s ≡ Runtime.invocation_error_response
      → Errs r.invoke_id (error_body json r).cause (error_delivered json max t r s)
  unfolding error_delivered send_error_response
  error_delivered-Errs s h =
      let d = of_payload (error_response json r).payload r.delivery in
      let sent = send_error_response max r.invoke_id d s.server in
      let s' : Server = set_runtime_state invoke_error s.server in
      error_answered-by s sent sent.result refl
        (λ e. sent-replied max r.invoke_id d false s' s'.invoke_ctx refl e) h

  error-moves :
      (s : Session)
      → ((state_of s ≡ Runtime.running)
          × ((invocation_error_response t.first s.runtime).1 ≡ returned none)
          × ((invocation_error_response t.first s.runtime).0.self.current_state
              ≡ Runtime.invocation_error_response))
        ⊎ ((state_of s ≢ Runtime.running)
            × (invocation_error_response t.first s.runtime
                ≡ (s.runtime, returned (some not_allowed))))
  unfolding invocation_error_response
  error-moves s = ground arith

  error-next : Session → Session × Rendered
  error-next s =
      transition s (invocation_error_response t.first s.runtime) (error_delivered json max t r)

  -- An error that the runtime reports of an invoke, with a response sender in the context: where the
  -- runtime is not `Running` the answer is 403 and nothing has changed. Otherwise the answer is 202, the
  -- reply to the invoke that is named was sent, the runtime has sent its response, and the validated
  -- cause is kept for the trace; or it is 400 and the runtime still stands in
  -- `InvocationErrorResponse`; or the handler panicked.
  pub serve_invocation_error-Errs :
      (s : Session) (w : ℕ)
      → load_response_sender s.app ≡ found w
      → let (s', answer) = serve_invocation_error json max t r s in
        ((state_of s ≡ Runtime.running) × Errs r.invoke_id (error_body json r).cause (s', answer))
        ⊎ ((state_of s ≢ Runtime.running) × (s' ≡ s) × (answer ≡ invalid_state_transition))
  unfolding serve_invocation_error error-next
  serve_invocation_error-Errs s w l =
      let p : Object Runtime.Runtime × Outcome = invocation_error_response t.first s.runtime in
      let e = with_sender-found s w error-next l in
      elim (error-moves s) [
        | inl (running, out, at) ↦
            let moved = e ∙ transition-moved s p (error_delivered json max t r) out in
            inl (
              running,
              subst (Errs r.invoke_id (error_body json r).cause) (sym moved)
                  (error_delivered-Errs (record s { runtime = p.0 }) at),
            )
        | inr (other, out) ↦
            let refused =
              e ∙ transition-refused s p (error_delivered json max t r) not_allowed out in
            inr (other, ap (λ q. q.0) refused, ap (λ q. q.1) refused)
      ]
