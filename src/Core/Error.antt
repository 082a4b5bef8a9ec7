-- ===== src/Core/Error.antt =====
-- The error values of internal/lambda/core, and those of its callers that pass through it.
use lambda_runtime_init.Base.{ℕ, List, String}

-- `interop.FunctionError`, its texts as bytes.
pub record FunctionError : Type 0 where
  pub type : List ℕ
  pub message : List ℕ

-- `reset_received` is `errResetReceived` of rapid; `other` stands for any error of a caller, by its
-- text.
pub data Error : Type 0 where
  not_allowed concurrent_state_modification : Error
  gate_integrity gate_canceled : Error
  agent_name_collision agent_id_collision : Error
  registration_service_off too_many_extensions : Error
  invalid_event_type event_not_supported_for_internal_agent : Error
  restore_hook_timeout reset_received : Error
  restore_hook_user_error : FunctionError → Error
  other : String → Error
