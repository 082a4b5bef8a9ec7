-- ===== src/Rapid/Shutdown/Order.antt =====
-- internal/lambda/rapid/shutdown.go: over any history of a shutdown the runtime goes first.
use lambda_runtime_init.Rapid.{Rapid}
use lambda_runtime_init.Core.ExternalAgent.Methods as External
