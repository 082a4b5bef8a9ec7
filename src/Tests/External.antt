-- ===== src/Tests/External.antt =====
-- Concrete inputs for internal/lambda/core/externalagent.go.
use lambda_runtime_init.Base.{refl, inl, inr, Bool, false, [], ◌∷◌}
use lambda_runtime_init.Core.Error.{Error}
use lambda_runtime_init.Core.InitFlow.{new_init_flow}
use lambda_runtime_init.Core.InvokeFlow.{new_invoke_flow}
use lambda_runtime_init.Core.Thread.{Object}
use lambda_runtime_init.Core.ExternalAgent.{ExternalAgent, ExternalAgentState, registered, exited}
use lambda_runtime_init.Core.ExternalAgent.Methods.{
  readies, exit_errors, calls, wakes, releases, System, run,
}
use lambda_runtime_init.Core.ExternalAgent.Final.{Same, run_external-final}
use lambda_runtime_init.Core.ExternalAgent.Diagram.{Follows, run_external-Follows}

abbrev at : ExternalAgentState → Object ExternalAgent
at st = record {
  self = record {
    name = "ext";
    id = "1";
    events = [];
    managed_thread = record { operator_condition_value = false };
    current_state = st;
    state_last_modified = 5;
    error_type = "";
  };
  init_flow = new_init_flow;
  invoke_flow = new_invoke_flow;
}

abbrev alone : ExternalAgentState → System
alone st = record { object = at st; waiting = 0 }

abbrev never : Error → Bool
never _ = false

run_external-final_example :
    Same
      (run never
        (alone exited)
        (calls readies 6 7 ∷ releases ∷ calls (exit_errors "E") 8 8 ∷ [])).object.self
      (at exited).self
run_external-final_example =
    run_external-final never (alone exited)
      (calls readies 6 7 ∷ releases ∷ calls (exit_errors "E") 8 8 ∷ []) (inr (inr (inr (inl refl))))

run_external-Follows_example :
    Follows never
      (alone registered)
      (calls readies 6 7 ∷ releases ∷ wakes 8 ∷ calls (exit_errors "E") 9 9 ∷ [])
run_external-Follows_example =
    run_external-Follows never (alone registered)
      (calls readies 6 7 ∷ releases ∷ wakes 8 ∷ calls (exit_errors "E") 9 9 ∷ [])
