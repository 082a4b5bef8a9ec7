-- ===== src/Tests.antt =====
-- The theorems at concrete inputs, and runs of the definitions.
mod Gate
mod Runtime
mod External
mod Internal
mod DirectInvoke
mod Registrations
mod Bandwidth
mod Server
mod Managed
mod Rapi
mod Appctx
mod Env
mod Rapid
