-- ===== src/Core.antt =====
-- internal/lambda/core: the synchronisation of runtime, extensions and the main thread.
pub mod Credentials
pub mod Error
pub mod Gate
pub mod InitFlow
pub mod InvokeFlow
pub mod Thread
pub mod Runtime
pub mod Agent
pub mod ExternalAgent
pub mod InternalAgent
pub mod AgentsMap
pub mod DirectInvoke
pub mod Registrations
