-- ===== src/Core/InitFlow.antt =====
-- internal/lambda/core/flow.go, `initFlowSynchronizationImpl`: the gates of the init phase.
use lambda_runtime_init.Base.{ℕ, Option, some}
use lambda_runtime_init.Core.Error.{Error, restore_hook_timeout}
use lambda_runtime_init.Core.Gate.{
  Gate, Await, passed, max_agents_limit, new_gate, set_count, walk_through, await_gate_condition,
}
use lambda_runtime_init.Core.Gate

-- `initFlowSynchronizationImpl`.
pub record InitFlow : Type 0 where
  pub external_agents_registered_gate : Gate
  pub runtime_ready_gate : Gate
  pub agent_ready_gate : Gate
  pub runtime_restore_ready_gate : Gate

unfoldable pub set_external_agents_register_count : InitFlow → ℕ → InitFlow × Option Error
set_external_agents_register_count s n =
    let (g, e) = set_count s.external_agents_registered_gate n in
    (record s { external_agents_registered_gate = g }, e)

unfoldable pub set_agents_ready_count : InitFlow → ℕ → InitFlow × Option Error
set_agents_ready_count s n =
    let (g, e) = set_count s.agent_ready_gate n in (record s { agent_ready_gate = g }, e)

unfoldable pub await_runtime_ready : InitFlow → Await
await_runtime_ready s = await_gate_condition s.runtime_ready_gate

unfoldable pub await_runtime_restore_ready : InitFlow → Await
await_runtime_restore_ready s = await_gate_condition s.runtime_restore_ready_gate

unfoldable pub await_external_agents_registered : InitFlow → Await
await_external_agents_registered s = await_gate_condition s.external_agents_registered_gate

unfoldable pub await_agents_ready : InitFlow → Await
await_agents_ready s = await_gate_condition s.agent_ready_gate

unfoldable pub runtime_ready : InitFlow → InitFlow × Option Error
runtime_ready s =
    let (g, e) = walk_through s.runtime_ready_gate in (record s { runtime_ready_gate = g }, e)

unfoldable pub runtime_restore_ready : InitFlow → InitFlow × Option Error
runtime_restore_ready s =
    let (g, e) = walk_through s.runtime_restore_ready_gate in
    (record s { runtime_restore_ready_gate = g }, e)

unfoldable pub agent_ready : InitFlow → InitFlow × Option Error
agent_ready s =
    let (g, e) = walk_through s.agent_ready_gate in (record s { agent_ready_gate = g }, e)

unfoldable pub external_agent_registered : InitFlow → InitFlow × Option Error
external_agent_registered s =
    let (g, e) = walk_through s.external_agents_registered_gate in
    (record s { external_agents_registered_gate = g }, e)

unfoldable pub cancel_with_error : InitFlow → Option Error → InitFlow
unfolding Gate.cancel_with_error
cancel_with_error s e = record {
  external_agents_registered_gate = Gate.cancel_with_error s.external_agents_registered_gate e;
  runtime_ready_gate = Gate.cancel_with_error s.runtime_ready_gate e;
  agent_ready_gate = Gate.cancel_with_error s.agent_ready_gate e;
  runtime_restore_ready_gate = Gate.cancel_with_error s.runtime_restore_ready_gate e;
}

unfoldable pub clear : InitFlow → InitFlow
unfolding Gate.clear
clear s = record {
  external_agents_registered_gate = Gate.clear s.external_agents_registered_gate;
  runtime_ready_gate = Gate.clear s.runtime_ready_gate;
  agent_ready_gate = Gate.clear s.agent_ready_gate;
  runtime_restore_ready_gate = Gate.clear s.runtime_restore_ready_gate;
}

-- Which channel the `select` reads: the gate's goroutine answered, or the deadline passed first.
pub data Select : Type 0 where
  gate_answered deadline_passed : Select

unfoldable pub await_runtime_ready_with_deadline : InitFlow → Select → InitFlow × Await
unfolding await_runtime_ready cancel_with_error
await_runtime_ready_with_deadline s gate_answered = (s, await_runtime_ready s)
await_runtime_ready_with_deadline s deadline_passed =
    let err = some restore_hook_timeout in (cancel_with_error s err, passed err)

unfoldable pub new_init_flow : InitFlow
unfolding new_gate
new_init_flow = record {
  external_agents_registered_gate = new_gate 0;
  runtime_ready_gate = new_gate 1;
  agent_ready_gate = new_gate max_agents_limit;
  runtime_restore_ready_gate = new_gate 1;
}
