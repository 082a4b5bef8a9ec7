-- ===== src/Rapid/Init/Sound.antt =====
-- internal/lambda/rapid/handlers.go, `doRuntimeDomainInit`: over any history an init ends as it should.
use lambda_runtime_init.Base.{
  ℕ, ◌≡◌, refl, sym, Bool, true, false, Option, none, some, List, arith, Option-cases, Bool-cases,
  inl, inr, subst, if-true, if-false,
}
use lambda_runtime_init.Core.Error.{Error}
use lambda_runtime_init.Core.InitFlow
use lambda_runtime_init.Fatalerror.{invalid_entrypoint}
use lambda_runtime_init.Core.Registrations.{off, turn_off, get_registered_agents_size}
use lambda_runtime_init.Rapid.{
  ProcessName, runtime_process, Phase, Status, executes, turns_off_subscriptions,
  runtime_done_success, runtime_done_error, Settings, Rapid, output, output_if,
}
use lambda_runtime_init.Rapid.Exits.{create_exited_channel, get_exited_channel}
use lambda_runtime_init.Rapid.Launch.{Failure, Launch}
use lambda_runtime_init.Rapid.Init.{Progress}
use lambda_runtime_init.Rapid.Init.{
  runtime_done, counted, unless_error, unless_failed, runtime_channel, runtime_executed,
  runtime_socketed, init_flow_call, finish_done, store_failure, complete, count_ready_agents,
  await_agents,
}
use lambda_runtime_init.Rapid.Init.Result.{reports, Sound, finish-failed, finish-completed}

module _ (c : Settings) (phase : Phase) (d : Bool) (n : ℕ) where
  pub done-failed :
      (status : Status) (e : Error) (r : Rapid)
      → r.init_done ≡ d
      → reports r.outputs ≡ n
      → Sound d n (finish_done c phase status (some e) r)
  unfolding finish_done
  done-failed status e r h k = finish-failed c phase e d n (runtime_done phase status r) h k

  -- The last part of a completed init, by whether the telemetry API is on.
  abbrev completed : Bool → Rapid → Rapid
  completed b r = record (output_if b turns_off_subscriptions r) { init_done = true }

  completed-Sound :
      (b : Bool) (r : Rapid)
      → reports r.outputs ≡ n
      → r.service.state ≡ off
      → Sound d n (finish_done c phase runtime_done_success none (completed b r))
  unfolding finish_done
  completed-Sound true r k o =
      finish-completed c phase d n (runtime_done phase runtime_done_success (completed true r)) refl
        k o
  completed-Sound false r k o =
      finish-completed c phase d n (runtime_done phase runtime_done_success (completed false r))
        refl k o

  pub complete-Sound :
      (r : Rapid) → reports r.outputs ≡ n → r.service.state ≡ off → Sound d n (complete c phase r)
  unfolding complete
  complete-Sound r k o = completed-Sound c.telemetry_api_enabled r k o

  counted-Sound :
      (r : Rapid) (o : Option Error)
      → r.init_done ≡ d
      → reports r.outputs ≡ n
      → r.service.state ≡ off
      → Sound d n (counted c phase (r, o))
  counted-Sound r none h k o = (h, k, o)
  counted-Sound r (some e) h k o = done-failed runtime_done_success e r h k

  pub await_agents-Sound :
      (r : Rapid) → r.init_done ≡ d → reports r.outputs ≡ n → Sound d n (await_agents c phase r)
  unfolding await_agents count_ready_agents turn_off
  await_agents-Sound r h k =
      let closed = record r { service = turn_off r.service } in
      let flow =
        init_flow_call
          (λ f. InitFlow.set_agents_ready_count f (get_registered_agents_size closed.service))
          closed in
      elim (Bool-cases c.extensions_enabled) [
        | inl on' ↦ subst (Sound d n) (sym (if-true _ _ on')) (counted-Sound flow.0 flow.1 h k refl)
        | inr off' ↦ subst (Sound d n) (sym (if-false _ _ off')) (complete-Sound closed k refl)
      ]

  channel-Sound :
      (name : ProcessName) (r : Rapid)
      → r.init_done ≡ d
      → reports r.outputs ≡ n
      → Sound d n (runtime_channel (create_exited_channel name r) r)
  unfolding create_exited_channel
  channel-Sound name r h k = elim (Option-cases (get_exited_channel name r)) [
    | inl fresh ↦ rw (create_exited_channel, fresh) (h, k)
    | inr (b, known) ↦ rw (create_exited_channel, known) tt
  ]

  store-failed :
      (f : Failure) (default : List ℕ) (r : Rapid)
      → r.init_done ≡ d
      → reports r.outputs ≡ n
      → ((store_failure f default r).init_done ≡ d)
        × (reports (store_failure f default r).outputs ≡ n)
  unfolding store_failure
  store-failed f default r h k = ground arith

  executed-Sound :
      (o : Option Failure) (r : Rapid)
      → r.init_done ≡ d
      → reports r.outputs ≡ n
      → Sound d n (runtime_executed c phase o r)
  executed-Sound none r h k = channel-Sound (runtime_process r.runtime_domain_generation) r h k
  executed-Sound (some f) r h k =
      let (h', k') = store-failed f invalid_entrypoint r h k in
      done-failed runtime_done_error f.err (store_failure f invalid_entrypoint r) h' k'

  module _ (l : Launch) where
    pub socketed-Sound :
        (o : Option Error) (r : Rapid)
        → r.init_done ≡ d
        → reports r.outputs ≡ n
        → Sound d n (runtime_socketed c phase l o r)
    socketed-Sound none r h k =
        executed-Sound l.exec_failure
          (output (executes (runtime_process r.runtime_domain_generation)) r) h k
    socketed-Sound (some e) r h k = finish-failed c phase e d n r h k

  pub unless-Sound :
      (o : Option Failure) (default : List ℕ) (next : Rapid → Rapid × Progress) (r : Rapid)
      → r.init_done ≡ d
      → reports r.outputs ≡ n
      → Sound d n (next r)
      → Sound d n (unless_failed c phase o default next r)
  unless-Sound none default next r h k s = s
  unless-Sound (some f) default next r h k s =
      let (h', k') = store-failed f default r h k in
      finish-failed c phase f.err d n (store_failure f default r) h' k'

  pub error-Sound :
      (o : Option Error) (next : Rapid → Rapid × Progress) (r : Rapid)
      → r.init_done ≡ d
      → reports r.outputs ≡ n
      → Sound d n (next r)
      → Sound d n (unless_error c phase next (r, o))
  error-Sound none next r h k s = s
  error-Sound (some e) next r h k s = finish-failed c phase e d n r h k
