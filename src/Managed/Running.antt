-- ===== src/Managed/Running.antt =====
-- internal/lambda-managed-instances/invoke/running_invoke.go: which of the messages of a runtime the
-- running invoke takes. Each atomic operation on `responseState` is a step.
pub mod Laws
use lambda_runtime_init.Base.{
  ℕ, zero, suc, ◌+◌, Bool, true, false, not, ◌&&◌, Option, none, some, String, str_eq,
  if◌then◌else◌,
}

pub data ResponseState : Type 0 where
  no_response got_response got_error : ResponseState

-- `reverting` counts the calls of `RuntimeResponse` that have found another invocation's ID and are
-- about to put the state back. The last two count what was sent to the two channels.
pub record RunningInvoke : Type 0 where
  pub response_state : ResponseState
  pub internal_invocation_id : String
  pub reverting : ℕ
  pub responses : ℕ
  pub errors : ℕ

unfoldable pub new_running_invoke : RunningInvoke
new_running_invoke = record {
  response_state = no_response;
  internal_invocation_id = "";
  reverting = 0;
  responses = 0;
  errors = 0;
}

-- `RunInvokeAndSendResult`, at its beginning.
unfoldable pub invoke_starts : String → RunningInvoke → RunningInvoke
invoke_starts id r = record r { internal_invocation_id = id }

pub data Refusal : Type 0 where
  response_in_progress error_in_progress invoke_timeout : Refusal

-- The ID that a runtime echoes differs from the invoke's, where both are given.
unfoldable pub is_cross_wired : String → RunningInvoke → Bool
is_cross_wired echoed r =
    not (str_eq echoed "")
    && not (str_eq r.internal_invocation_id "")
    && not (str_eq echoed r.internal_invocation_id)

-- `RuntimeResponse`: `none` where the response was passed on, or the call is to be reverted.
unfoldable pub runtime_response : String → RunningInvoke → RunningInvoke × Option Refusal
unfolding is_cross_wired
runtime_response echoed r = elim r.response_state [
  | no_response ↦
      if is_cross_wired echoed r
      then (record r { response_state = got_response; reverting = r.reverting + 1 }, none)
      else (record r { response_state = got_response; responses = r.responses + 1 }, none)
  | got_response ↦ (r, some response_in_progress)
  | got_error ↦ (r, some response_in_progress)
]

abbrev put_back : ResponseState → ResponseState
put_back got_response = no_response
put_back no_response = no_response
put_back got_error = got_error

-- The second `CompareAndSwap`, of a call that is to be reverted, and its answer.
unfoldable pub response_reverts : RunningInvoke → RunningInvoke × Option Refusal
response_reverts r = elim r.reverting [
  | zero ↦ (r, none)
  | suc n ↦
      (record r { response_state = put_back r.response_state; reverting = n }, some invoke_timeout)
]

unfoldable pub runtime_error : String → RunningInvoke → RunningInvoke × Option Refusal
unfolding is_cross_wired
runtime_error echoed r =
    if is_cross_wired echoed r then (r, some invoke_timeout) else elim r.response_state [
      | got_error ↦ (r, some error_in_progress)
      | no_response ↦ (record r { response_state = got_error; errors = r.errors + 1 }, none)
      | got_response ↦ (record r { response_state = got_error; errors = r.errors + 1 }, none)
    ]

-- `RunInvokeAndSendResult` stores the error state when the invoke is cancelled, and when the response
-- cannot be parsed.
unfoldable pub invoke_fails : RunningInvoke → RunningInvoke
invoke_fails r = record r { response_state = got_error }
