-- ===== src/Tests/Runtime.antt =====
-- Concrete inputs for internal/lambda/core/states.go.
use lambda_runtime_init.Core.Runtime.System
use lambda_runtime_init.Core.InvokeFlow
use lambda_runtime_init.Base.{ℕ, ◌+◌, ◌≤◌, ◌≡◌, refl, false, none, some, List, [], ◌∷◌, arith}
use lambda_runtime_init.Core.Error.{not_allowed}
use lambda_runtime_init.Core.Gate.{Gate, passed, walk_through}
use lambda_runtime_init.Core.Thread.{Resume, to_running}
use lambda_runtime_init.Core.Runtime.{RuntimeState, started, ready, init_error}
use lambda_runtime_init.Core.Runtime.System.{
  Call, calls, wakes, releases, initializes_barriers, System, Reply, pending, replied, step, run,
}
use lambda_runtime_init.Core.Runtime.Diagram.{state, Follows, run-Follows}
use lambda_runtime_init.Core.Runtime.Progress.{
  step-not_allowed, responses_balance, resumed-le-released, total, sent, announced, owed_by,
  resumed, released,
}
use lambda_runtime_init.Core.Runtime.Cycle.{
  IsIdle, invoke-IsIdle, invokes-IsIdle, invoke, invokes, response, error_response,
}

abbrev gate : ℕ → ℕ → Gate
gate count arrived = record { count = count; arrived = arrived; canceled = false; err = none }

-- A runtime in a state, with one arrival expected at each gate, and `n` there.
abbrev pub at : RuntimeState → List Resume → ℕ → System
at st waiting n = record {
  object = record {
    self = record {
      managed_thread = record { operator_condition_value = false };
      current_state = st;
      state_last_modified = 5;
      response_time = 0;
    };
    init_flow = record {
      external_agents_registered_gate = gate 0 0;
      runtime_ready_gate = gate 1 n;
      agent_ready_gate = gate 65535 0;
      runtime_restore_ready_gate = gate 1 n;
    };
    invoke_flow = record {
      runtime_ready_gate = gate 1 n;
      runtime_response_gate = gate 1 n;
      agent_ready_gate = gate 65535 0;
    };
  };
  waiting = waiting;
}

abbrev idle : System
idle = at ready (to_running ∷ []) 1

idle-IsIdle : IsIdle 1 idle
idle-IsIdle = ground arith

run-Follows_example :
    Follows
      (at started [] 0)
      (calls System.ready 6 7 ∷ releases ∷ wakes 0 8 ∷ calls System.invocation_response 9 9 ∷ [])
run-Follows_example =
    run-Follows (at started [] 0)
      (calls System.ready 6 7 ∷ releases ∷ wakes 0 8 ∷ calls System.invocation_response 9 9 ∷ [])

ready-refused : (step (at init_error [] 0) (calls System.ready 6 7)).1 ≡ replied (some not_allowed)
unfolding step
ready-refused = refl

step-not_allowed_example :
    (step (at init_error [] 0) (calls System.ready 6 7)).0 ≡ at init_error [] 0
step-not_allowed_example =
    step-not_allowed (at init_error [] 0) (calls System.ready 6 7) ready-refused

responses_balance_example :
    total sent idle (invoke System.invocation_response 9)
      + owed_by (run idle (invoke System.invocation_response 9)).0
    ≡ total announced idle (invoke System.invocation_response 9) + 0
responses_balance_example = responses_balance idle (invoke System.invocation_response 9)

resumed-le-released_example :
    total resumed idle (releases ∷ wakes 0 9 ∷ wakes 0 9 ∷ [])
    ≤ total released idle (releases ∷ wakes 0 9 ∷ wakes 0 9 ∷ []) + 0
resumed-le-released_example = resumed-le-released idle (releases ∷ wakes 0 9 ∷ wakes 0 9 ∷ [])

invoke-IsIdle_example :
    let r = run idle (invoke System.invocation_error_response 9) in
    (r.1 ≡ pending ∷ pending ∷ replied none ∷ replied none ∷ replied none ∷ pending ∷ [])
    × IsIdle 1 r.0
    × (InvokeFlow.await_runtime_response r.0.object.invoke_flow ≡ passed none)
    × (InvokeFlow.await_runtime_ready r.0.object.invoke_flow ≡ passed none)
invoke-IsIdle_example =
    invoke-IsIdle idle 1 9 System.invocation_error_response idle-IsIdle error_response

abbrev two_invokes : List (Call × ℕ)
two_invokes = (System.invocation_response, 9) ∷ (System.invocation_error_response, 12) ∷ []

invokes-IsIdle_example : (m : ℕ) × IsIdle m (run idle (invokes two_invokes)).0
invokes-IsIdle_example =
    invokes-IsIdle idle 1 two_invokes idle-IsIdle (response, (error_response, tt))

-- The state after init, and the reply to a response that comes before an invoke.
init_test :
    (state (run (at started [] 0) (calls System.ready 6 7 ∷ [])).0 ≡ ready)
    × ((step idle (calls System.invocation_response 9 9)).1 ≡ replied (some not_allowed))
unfolding run step walk_through
init_test = (refl, refl)
