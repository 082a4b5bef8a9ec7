-- ===== src/Managed.antt =====
-- internal/lambda-managed-instances: the variant of the system for concurrent invokes.
pub mod Pool
pub mod Router
pub mod Running
pub mod Timeouts
