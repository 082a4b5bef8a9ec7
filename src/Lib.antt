-- ===== src/Lib.antt =====
-- lambda-runtime-init: the synchronisation core of the runtime emulator, its main thread, the server
-- and the API handlers over it, its bandwidth limiter, and the pool of the managed instances.
--
-- An execution environment runs a language runtime and extensions (agents), which call the Runtime
-- API and the Extensions API over HTTP. Each request becomes a method call on a state machine, and a
-- main thread takes the environment through init, invokes and reset. Both sides meet at gates.
--
-- * Core/Gate models internal/lambda/core/gates.go: a counting barrier of uint16 arrivals.
-- * Core/InitFlow and Core/InvokeFlow model internal/lambda/core/flow.go: the gates of the init phase
--   and of an invoke, with the names of the Go methods in snake_case.
-- * Core/Thread models `ManagedThread` of internal/lambda/core/states.go, and how a method of a state
--   object runs: it returns, or waits for its operator.
-- * Core/Runtime models the ten runtime states of internal/lambda/core/states.go. A Go method
--   `(s *RuntimeStartedState) Ready` is `ready_started`; Core/Runtime/Methods are the methods of
--   `Runtime`; Core/Runtime/System interleaves their calls, wake-ups and the main thread's steps.
-- * Core/ExternalAgent and Core/InternalAgent model externalagent.go, externalagent_states.go,
--   internalagent.go and internalagent_states.go of internal/lambda/core, and Core/Agent what the two
--   share, in the same way. The flows are shared with the others, so a history may replace them.
-- * Core/AgentsMap models internal/lambda/core/agentsmap.go. A Go map is an association list, whose
--   order stands for the order of a `range`, which Go leaves open.
-- * Core/Registrations models internal/lambda/core/registrations.go. A pointer is an address in a
--   `Memory`, and Core/Registrations/Queries are the methods that only read.
-- * Core/DirectInvoke models internal/lambda/core/directinvoke: the reception of a direct invoke
--   (Receive), whose settings are package variables that outlive a request, and the bucket of a
--   streamed response.
-- * Rapidcore/Server models internal/lambda/rapidcore/server.go: an invoke is reserved, gets a stream
--   for its reply (FastInvoke), is replied to by the runtime or by a default error (Send), and
--   is released or reset (Wait, Invoke). Steps has the histories of the calls, and Spec the
--   automaton of a reservation: free, reserved, invoking, replied.
-- * Rapidcore/Env models internal/lambda/rapidcore/env: the environment of the processes.
-- * Rapid models internal/lambda/rapid, the main thread. Rapid/Init, Rapid/Invoke and Rapid/Restore run
--   up to a gate of Core/InitFlow or Core/InvokeFlow and go on when they are woken there; Rapid/Launch
--   is the launch of the extensions. Rapid/Exits has the watcher of processes, Rapid/Shutdown the steps
--   of the shutdown and of its goroutines, between which those of the watcher come, one by one, and
--   the requests of the APIs; Rapid/Handlers and Rapid/Reset are what is done around them,
--   and Rapid/Names the names of extensions. What is sent to other parties is a list of outputs.
-- * Rapi models internal/lambda/rapi: the handlers of the runtime (Responses, Transitions) move the
--   runtime's state machine of Core/Runtime and send to the server of Rapidcore; those of extensions
--   (Extensions, Extensions/Registration) move the agents of Core/Registrations. A handler is a function
--   of what it works on, and gives the answer as a `Rendered`, whose `status` is the HTTP status. A
--   request for the next event is a step up to its wait, and one more when it is woken.
--   Rapi/ErrorCause models internal/lambda/rapi/model/error_cause.go and error_cause_compactor.go.
-- * Appctx models internal/lambda/appctx: the map, and the runtime release (Features).
-- * Fatalerror models internal/lambda/fatalerror.
-- * Bandwidth models internal/lambda/core/bandwidthlimiter: the token bucket (Bucket), the iterator
--   over chunks (Chunks), the throttler (Throttler), and the limited writer (Writer).
-- * Core/Credentials models internal/lambda/core/credentials.go.
-- * Managed models parts of internal/lambda-managed-instances/invoke: the pool of runtimes (Pool), the
--   router, whose `Invoke` is split into its atomic steps (Router), the response state of
--   running_invoke.go (Running), and timeout/timeout_cache.go (Timeouts).
-- * Base has the shared names, and Tests the theorems at concrete inputs.
--
-- A method that holds its mutex is one step. A wait on a condition variable ends the step; each time
-- that the goroutine is scheduled again it runs its test once more, which is a step of its own, so
-- that spurious wake-ups are covered. Any order of the steps is a history.
--
-- Counts are uint16 and int64 with their wrap-around written out; times are nanoseconds, given by the
-- caller of each method in place of the clock. The loop over chunks runs on fuel, one more than the
-- bytes of the buffer, which is enough because a chunk has a byte at least. A limited write consumes a
-- list of ticks of the producer and waits when it is used up.
--
-- Parameters: the writer that the limiter wraps, what `os.IsPermission`, `strconv.ParseInt`,
-- `strings.EqualFold`, `encoding/json`, `uuid.Parse` and the decoder of the customer headers answer, the
-- UUIDs, what becomes of a payload outside (a `Delivery`), the sandbox's answers to a reset, the limit
-- of a payload, the process's variables, what the supervisor and the bootstrap answer, the bytes of a
-- text and `fmt.Errorf`. A process is named by its parts, which its text determines.
--
-- Not modelled: sockets, processes, logs and telemetry, which are input and output; the streaming of
-- responses to direct invokes, and the goroutines of `Invoke` before `AwaitRelease`; the texts of
-- answers; metrics and times of the main thread; the standalone server, the rest of the managed
-- instances, and cmd/localstack.
pub mod Base
pub mod Core
pub mod Bandwidth
pub mod Appctx
pub mod Fatalerror
pub mod Managed
pub mod Rapi
pub mod Rapid
pub mod Rapidcore
pub mod Tests
