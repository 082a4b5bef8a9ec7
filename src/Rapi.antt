-- ===== src/Rapi.antt =====
-- internal/lambda/rapi: the Runtime API and the Extensions API, as handlers of requests.
pub mod ErrorCause
pub mod Session
pub mod Responses
pub mod Transitions
pub mod Extensions
