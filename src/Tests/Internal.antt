-- ===== src/Tests/Internal.antt =====
-- Concrete inputs for internal/lambda/core/internalagent.go.
use lambda_runtime_init.Base.{false, [], ◌∷◌}
use lambda_runtime_init.Core.InitFlow.{new_init_flow}
use lambda_runtime_init.Core.InvokeFlow.{new_invoke_flow}
use lambda_runtime_init.Core.Thread.{Object}
use lambda_runtime_init.Core.InternalAgent.{InternalAgent, InternalAgentState, registered}
use lambda_runtime_init.Core.InternalAgent.Methods.{
  readies, exit_errors, calls, wakes, releases, System,
}
use lambda_runtime_init.Core.InternalAgent.Diagram.{Follows, run_internal-Follows}

abbrev at : InternalAgentState → Object InternalAgent
at st = record {
  self = record {
    name = "ext";
    id = "1";
    events = [];
    managed_thread = record { operator_condition_value = false };
    current_state = st;
    state_last_modified = 5;
    error_type = "";
  };
  init_flow = new_init_flow;
  invoke_flow = new_invoke_flow;
}

abbrev alone : InternalAgentState → System
alone st = record { object = at st; waiting = 0 }

run_internal-Follows_example :
    Follows
      (alone registered)
      (calls readies 6 7 ∷ releases ∷ wakes 8 ∷ calls (exit_errors "E") 9 9 ∷ [])
run_internal-Follows_example =
    run_internal-Follows (alone registered)
      (calls readies 6 7 ∷ releases ∷ wakes 8 ∷ calls (exit_errors "E") 9 9 ∷ [])
