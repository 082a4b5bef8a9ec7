-- ===== src/Core/Runtime/Methods.antt =====
-- internal/lambda/core/states.go: the methods of `Runtime`. Each locks the thread and delegates to
-- the current state.
use lambda_runtime_init.Base.{ℕ, none, some, String, if◌then◌else◌, ◌/◌, ◌==◌}
use lambda_runtime_init.Core.Error.{FunctionError}
use lambda_runtime_init.Core.Thread.{
  new_managed_thread, Object, Resume, Outcome, returned, suspended, method,
}
use lambda_runtime_init.Core.Runtime.{
  RuntimeState, Runtime, name, ready_in, restore_ready_in, init_error_in, invocation_response_in,
  invocation_error_response_in, response_sent_in, restore_error_in, suspend, set_state_unsafe,
}

unfoldable pub ready : ℕ → ℕ → Object Runtime → Object Runtime × Outcome
unfolding ready_in
ready now later o = method (ready_in o.self.current_state now later) o

unfoldable pub restore_ready : ℕ → ℕ → Object Runtime → Object Runtime × Outcome
unfolding restore_ready_in
restore_ready now later o = method (restore_ready_in o.self.current_state now later) o

unfoldable pub init_error : ℕ → Object Runtime → Object Runtime × Outcome
unfolding init_error_in
init_error now o = method (init_error_in o.self.current_state now) o

unfoldable pub invocation_response : ℕ → Object Runtime → Object Runtime × Outcome
unfolding invocation_response_in
invocation_response now o = method (invocation_response_in o.self.current_state now) o

unfoldable pub invocation_error_response : ℕ → Object Runtime → Object Runtime × Outcome
unfolding invocation_error_response_in
invocation_error_response now o = method (invocation_error_response_in o.self.current_state now) o

-- A response that was sent is given its time, by a second reading of the clock.
abbrev stamp_response : ℕ → Object Runtime × Outcome → Object Runtime × Outcome
stamp_response later (o, returned none) =
    (record o { self = record o.self { response_time = later } }, returned none)
stamp_response later (o, returned (some e)) = (o, returned (some e))
stamp_response later (o, suspended r) = (o, suspended r)

unfoldable pub response_sent : ℕ → ℕ → Object Runtime → Object Runtime × Outcome
unfolding response_sent_in
response_sent now later o =
    stamp_response later (method (response_sent_in o.self.current_state now) o)

unfoldable pub restore_error : FunctionError → ℕ → Object Runtime → Object Runtime × Outcome
unfolding restore_error_in
restore_error user_error now o = method (restore_error_in o.self.current_state user_error now) o

-- A goroutine that waits in one of the methods above is woken, and takes the mutex again.
unfoldable pub wake : Resume → ℕ → Object Runtime → Object Runtime × Outcome
unfolding suspend
wake r now o = method (suspend r now) o

-- `statejson.StateDescription`, in milliseconds and nanoseconds.
pub record StateDescription : Type 0 where
  pub name : String
  pub last_modified : ℕ
  pub response_time_ns : ℕ

-- An int64 that JSON gives as 0 where it is not set.
unfoldable pub get_runtime_description : Runtime → StateDescription
unfolding name
get_runtime_description s = record {
  name = name s.current_state;
  last_modified = s.state_last_modified / 1_000_000;
  response_time_ns = if s.response_time == 0 then 0 else s.response_time;
}

unfoldable pub new_runtime : ℕ → Runtime
unfolding new_managed_thread set_state_unsafe
new_runtime now = set_state_unsafe RuntimeState.started now (record {
  managed_thread = new_managed_thread;
  current_state = RuntimeState.started;
  state_last_modified = 0;
  response_time = 0;
})
