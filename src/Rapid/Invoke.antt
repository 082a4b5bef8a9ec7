-- ===== src/Rapid/Invoke.antt =====
-- internal/lambda/rapid/handlers.go, `doInvoke`: a step up to each of its waits, and one more each time
-- that the main thread is woken there. The times of the invoke and the tracing segments are left out.
pub mod Failed
use lambda_runtime_init.Base.{
  ℕ, ◌+◌, Bool, true, false, not, ◌&&◌, Option, none, some, List, [], ◌∷◌, String, if◌then◌else◌,
  ltb, length, u16,
}
use lambda_runtime_init.Core.Error.{Error}
use lambda_runtime_init.Core.Gate.{Await, blocked, passed}
use lambda_runtime_init.Core.InvokeFlow
use lambda_runtime_init.Core.Agent.{invoke_event}
use lambda_runtime_init.Core.AgentsMap.{AgentRef}
use lambda_runtime_init.Core.Registrations.{RegistrationService, count_agents}
use lambda_runtime_init.Core.Registrations.Queries.{
  get_subscribed_external_agents, get_subscribed_internal_agents,
}
use lambda_runtime_init.Rapid.{
  lifecycle_phase_invoke, runtime_done_success, invoke_renderer, sends_invoke_start,
  sends_invoke_runtime_done, sends_runtime_ready, Settings, Rapid, output, release_external,
  release_internal, release_runtime,
}
use lambda_runtime_init.Rapid.Launch.{Launch}
use lambda_runtime_init.Rapid.Init.{InitPc, Progress, waits, ended, panicked}
use lambda_runtime_init.Rapid.Init.{init_begins, init_resumes}

-- Where an invoke waits: at a gate of its inline init, or at one of its own.
pub data InvokePc : Type 0 where
  inline_init : InitPc → InvokePc
  awaits_runtime_response awaits_runtime_ready awaits_agents_ready : InvokePc

pub data InvokeProgress : Type 0 where
  invoke_waits : InvokePc → InvokeProgress
  invoke_ended : Option Error → InvokeProgress
  invoke_panicked : InvokeProgress

unfoldable pub has_active_extensions : Settings → Rapid → Bool
unfolding count_agents
has_active_extensions c r = c.extensions_enabled && ltb 0 (count_agents r.service)

abbrev release_externals : List AgentRef → Rapid → Rapid
release_externals [] r = r
release_externals (a ∷ more) r = release_externals more (release_external a r)

abbrev release_internals : List AgentRef → Rapid → Rapid
release_internals [] r = r
release_internals (a ∷ more) r = release_internals more (release_internal a r)

abbrev pub release_agents : Settings → List AgentRef → List AgentRef → Rapid → Rapid
release_agents c externals internals r =
    if c.extensions_enabled then release_internals internals (release_externals externals r) else r

-- `runtime` is a nil pointer where none is registered.
abbrev pub runtime_released : Option ℕ → Rapid → Rapid × InvokeProgress
runtime_released none r = (r, invoke_panicked)
runtime_released (some address) r =
    (release_runtime address r, invoke_waits awaits_runtime_response)

-- The part of `CaptureInvokeSubsegment`, up to its wait.
unfoldable pub dispatch :
    Settings → String → List AgentRef → List AgentRef → Rapid → Rapid × InvokeProgress
unfolding release_external release_internal release_runtime
dispatch c id externals internals r =
    let set = record r { renderer = invoke_renderer id } in
    runtime_released set.service.runtime (release_agents c externals internals set)

abbrev pub counted :
    (Rapid → Rapid × InvokeProgress) → Rapid × Option Error → Rapid × InvokeProgress
counted next (r, some e) = (r, invoke_ended (some e))
counted next (r, none) = next r

abbrev pub invoke_flow_call :
    (InvokeFlow.InvokeFlow → InvokeFlow.InvokeFlow × Option Error) → Rapid → Rapid × Option Error
invoke_flow_call f r =
    let (flow, err) = f r.service.invoke_flow in
    (record r { service = record r.service { invoke_flow = flow } }, err)

abbrev pub with_barriers : Rapid → Rapid
with_barriers r = record r {
  service = record r.service { invoke_flow = InvokeFlow.initialize_barriers r.service.invoke_flow };
}

unfoldable pub count_subscribed : Settings → String → Rapid → Rapid × InvokeProgress
unfolding dispatch get_subscribed_external_agents get_subscribed_internal_agents
    InvokeFlow.set_agents_ready_count
count_subscribed c id r =
    let internals = get_subscribed_internal_agents r.memory invoke_event r.service in
    let externals = get_subscribed_external_agents r.memory invoke_event r.service in
    let count = u16 (length internals + length externals) in
    counted (dispatch c id externals internals)
      (invoke_flow_call (λ f. InvokeFlow.set_agents_ready_count f count) r)

-- What follows the init, up to the wait for the response.
unfoldable pub invoke_initialized : Settings → String → Rapid → Rapid × InvokeProgress
unfolding dispatch count_subscribed InvokeFlow.initialize_barriers
invoke_initialized c id r =
    let ready = with_barriers (output (sends_invoke_start id) r) in
    if c.extensions_enabled then count_subscribed c id ready else dispatch c id [] [] ready

-- What comes of a step of the inline init.
abbrev pub inline : Settings → String → Rapid × Progress → Rapid × InvokeProgress
inline c id (r, waits pc) = (r, invoke_waits (inline_init pc))
inline c id (r, ended (some e)) = (output (sends_invoke_start id) r, invoke_ended (some e))
inline c id (r, ended none) = invoke_initialized c id r
inline c id (r, panicked) = (r, invoke_panicked)

unfoldable pub invoke_begins : Settings → String → Launch → Rapid → Rapid × InvokeProgress
unfolding init_begins invoke_initialized
invoke_begins c id l r =
    if not r.init_done
    then inline c id (init_begins c lifecycle_phase_invoke l r)
    else invoke_initialized c id r

-- What follows the wait for the runtime.
unfoldable pub runtime_is_ready : Settings → Rapid → Rapid × InvokeProgress
unfolding has_active_extensions
runtime_is_ready c r =
    let done = output (sends_invoke_runtime_done runtime_done_success none) r in
    if has_active_extensions c done
    then (output sends_runtime_ready done, invoke_waits awaits_agents_ready)
    else (done, invoke_ended none)

abbrev pub at_gate :
    InvokePc → Await → (Rapid → Rapid × InvokeProgress) → Rapid → Rapid × InvokeProgress
at_gate pc blocked goes_on r = (r, invoke_waits pc)
at_gate pc (passed (some e)) goes_on r = (r, invoke_ended (some e))
at_gate pc (passed none) goes_on r = goes_on r

-- The main thread is woken at its gate.
unfoldable pub invoke_resumes :
    Settings → String → Launch → InvokePc → Rapid → Rapid × InvokeProgress
unfolding init_resumes invoke_initialized runtime_is_ready InvokeFlow.await_runtime_response
    InvokeFlow.await_runtime_ready InvokeFlow.await_agents_ready
invoke_resumes c id l (inline_init pc) r =
    inline c id (init_resumes c lifecycle_phase_invoke l pc r)
invoke_resumes c id l awaits_runtime_response r =
    at_gate awaits_runtime_response (InvokeFlow.await_runtime_response r.service.invoke_flow)
      (λ s. (s, invoke_waits awaits_runtime_ready)) r
invoke_resumes c id l awaits_runtime_ready r =
    at_gate awaits_runtime_ready (InvokeFlow.await_runtime_ready r.service.invoke_flow)
      (runtime_is_ready c) r
invoke_resumes c id l awaits_agents_ready r =
    at_gate awaits_agents_ready (InvokeFlow.await_agents_ready r.service.invoke_flow)
      (λ s. (s, invoke_ended none)) r
