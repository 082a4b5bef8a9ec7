-- ===== src/Rapidcore.antt =====
-- internal/lambda/rapidcore: the server that the sandbox's callers talk to, and the environment.
pub mod Server
pub mod Env
