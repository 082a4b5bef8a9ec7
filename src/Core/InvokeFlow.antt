-- ===== src/Core/InvokeFlow.antt =====
-- internal/lambda/core/flow.go, `invokeFlowSynchronizationImpl`: the gates of one invoke.
use lambda_runtime_init.Base.{ℕ, Option}
use lambda_runtime_init.Core.Error.{Error}
use lambda_runtime_init.Core.Gate.{
  Gate, Await, max_agents_limit, new_gate, set_count, walk_through, await_gate_condition,
}
use lambda_runtime_init.Core.Gate

pub record InvokeFlow : Type 0 where
  pub runtime_ready_gate : Gate
  pub runtime_response_gate : Gate
  pub agent_ready_gate : Gate

unfoldable pub initialize_barriers : InvokeFlow → InvokeFlow
unfolding Gate.reset
initialize_barriers s = record {
  runtime_ready_gate = Gate.reset s.runtime_ready_gate;
  runtime_response_gate = Gate.reset s.runtime_response_gate;
  agent_ready_gate = Gate.reset s.agent_ready_gate;
}

unfoldable pub clear : InvokeFlow → InvokeFlow
unfolding Gate.clear
clear s = record {
  runtime_ready_gate = Gate.clear s.runtime_ready_gate;
  runtime_response_gate = Gate.clear s.runtime_response_gate;
  agent_ready_gate = Gate.clear s.agent_ready_gate;
}

unfoldable pub await_runtime_response : InvokeFlow → Await
await_runtime_response s = await_gate_condition s.runtime_response_gate

unfoldable pub await_runtime_ready : InvokeFlow → Await
await_runtime_ready s = await_gate_condition s.runtime_ready_gate

-- The runtime that the source passes to the next two is not used there.
unfoldable pub runtime_response : InvokeFlow → InvokeFlow × Option Error
runtime_response s =
    let (g, e) = walk_through s.runtime_response_gate in (record s { runtime_response_gate = g }, e)

unfoldable pub runtime_ready : InvokeFlow → InvokeFlow × Option Error
runtime_ready s =
    let (g, e) = walk_through s.runtime_ready_gate in (record s { runtime_ready_gate = g }, e)

unfoldable pub cancel_with_error : InvokeFlow → Option Error → InvokeFlow
unfolding Gate.cancel_with_error
cancel_with_error s e = record {
  runtime_ready_gate = Gate.cancel_with_error s.runtime_ready_gate e;
  runtime_response_gate = Gate.cancel_with_error s.runtime_response_gate e;
  agent_ready_gate = Gate.cancel_with_error s.agent_ready_gate e;
}

unfoldable pub set_agents_ready_count : InvokeFlow → ℕ → InvokeFlow × Option Error
set_agents_ready_count s n =
    let (g, e) = set_count s.agent_ready_gate n in (record s { agent_ready_gate = g }, e)

unfoldable pub agent_ready : InvokeFlow → InvokeFlow × Option Error
agent_ready s =
    let (g, e) = walk_through s.agent_ready_gate in (record s { agent_ready_gate = g }, e)

unfoldable pub await_agents_ready : InvokeFlow → Await
await_agents_ready s = await_gate_condition s.agent_ready_gate

unfoldable pub new_invoke_flow : InvokeFlow
unfolding new_gate
new_invoke_flow = record {
  runtime_ready_gate = new_gate 1;
  runtime_response_gate = new_gate 1;
  agent_ready_gate = new_gate max_agents_limit;
}
