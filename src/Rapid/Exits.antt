-- ===== src/Rapid/Exits.antt =====
-- internal/lambda/rapid/shutdown.go, and `watchEvents` of handlers.go: the exited channels, and what
-- the watcher does with an event of the supervisor.
use lambda_runtime_init.Base.{
  ℕ, Bool, true, false, Option, none, some, List, [], ◌∷◌, String, if◌then◌else◌, ◌==◌,
}
use lambda_runtime_init.Base.Int.{ℤ, pos}
use lambda_runtime_init.Core.Error.{Error, other}
use lambda_runtime_init.Core.ExternalAgent.Methods as External
use lambda_runtime_init.Core.Registrations.{cancel_flows}
use lambda_runtime_init.Core.ExternalAgent.Methods.{is_subscribed}
use lambda_runtime_init.Appctx.{store_first_fatal_error}
use lambda_runtime_init.Fatalerror.{runtime_exit, agent_crash}
use lambda_runtime_init.Rapid.{
  ProcessName, runtime_process, same_process, ShutdownContext, Settings, Rapid, call_agent,
}

module _ {V : Type 0} where
  unfoldable pub find_process : ProcessName → List (ProcessName × V) → Option V
  unfolding same_process
  find_process name [] = none
  find_process name ((n, v) ∷ m) = if same_process n name then some v else find_process name m

  unfoldable pub put_process : ProcessName → V → List (ProcessName × V) → List (ProcessName × V)
  unfolding same_process
  put_process name v [] = (name, v) ∷ []
  put_process name v ((n, w) ∷ m) =
      if same_process n name then (name, v) ∷ m else (n, w) ∷ put_process name v m

unfoldable pub new_shutdown_context : ShutdownContext
new_shutdown_context = record {
  shutting_down = false;
  agents_awaiting_exit = [];
  runtime_domain_exited = [];
}

abbrev pub with_shutdown : (ShutdownContext → ShutdownContext) → Rapid → Rapid
with_shutdown f r = record r { shutdown = f r.shutdown }

unfoldable pub set_shutting_down : Bool → Rapid → Rapid
set_shutting_down value r = with_shutdown (λ s. record s { shutting_down = value }) r

unfoldable pub get_exited_channel : ProcessName → Rapid → Option Bool
unfolding find_process
get_exited_channel name r = find_process name r.shutdown.runtime_domain_exited

-- `none` is a panic.
unfoldable pub create_exited_channel : ProcessName → Rapid → Option Rapid
unfolding get_exited_channel put_process
create_exited_channel name r = elim (get_exited_channel name r) [
  | some _ ↦ none
  | none ↦ some (
      with_shutdown
        (λ s. record s { runtime_domain_exited = put_process name false s.runtime_domain_exited })
        r)
]

-- `close` of a channel, which panics where there is none or it is closed already.
unfoldable pub close_channel : ProcessName → Rapid → Option Rapid
unfolding get_exited_channel put_process
close_channel name r = elim (get_exited_channel name r) [
  | none ↦ none
  | some closed ↦
      if closed
      then none
      else some (
          with_shutdown
            (λ s. record s {
              runtime_domain_exited = put_process name true s.runtime_domain_exited;
            })
            r)
]

-- `supvmodel.ProcessTermination`; `text` is its `String()`.
pub record Termination : Type 0 where
  pub name : ProcessName
  pub exit_status : Option ℤ
  pub text : String

abbrev is_zero : Option ℤ → Bool
is_zero (some (pos n)) = n == 0
is_zero _ = false

unfoldable pub success : Termination → Bool
success t = is_zero t.exit_status

unfoldable pub handle_process_exit : Settings → Termination → ℕ → Rapid → Option Rapid
unfolding find_process success call_agent close_channel
handle_process_exit c t now r = elim (find_process t.name r.shutdown.agents_awaiting_exit) [
  | none ↦ close_channel t.name r
  | some agent ↦
      let method = if success t then External.exits else External.shutdowns_failed in
      close_channel t.name (call_agent c.is_permission method now agent r)
]

-- An event of the supervisor.
pub data Event : Type 0 where
  event_loss : ℕ → Event
  process_terminated : Termination → Event

-- The error of an exit that nobody asked for; `formatted` is what `fmt.Errorf` makes of the text.
unfoldable pub exit_error : (String → String) → ℕ → Termination → Error
unfolding same_process success
exit_error formatted generation t =
    if same_process t.name (runtime_process generation)
    then if success t
      then other "Runtime exited without providing a reason"
      else other (formatted t.text)
    else if success t
    then other "exit code 0"
    else other t.text

abbrev pub exit_type : ℕ → Termination → List ℕ
exit_type generation t =
    if same_process t.name (runtime_process generation) then runtime_exit else agent_crash

abbrev pub cancelled_with : Option Error → Option Rapid → Option Rapid
cancelled_with err none = none
cancelled_with err (some r) = some (record r { service = cancel_flows err r.service })

-- The store of a fatal error, where the test of `isShuttingDown` has answered no.
unfoldable pub note_exit : Termination → Rapid → Rapid
unfolding store_first_fatal_error
note_exit t r = record r {
  app = store_first_fatal_error (exit_type r.runtime_domain_generation t) r.app;
}

-- A round of the loop of `watchEvents` in which nobody comes in between. No lock is held across its
-- parts: the steps of Shutdown have them one by one.
unfoldable pub watch_event : Settings → (String → String) → Event → ℕ → Rapid → Option Rapid
unfolding exit_error note_exit handle_process_exit cancel_flows
watch_event c formatted (event_loss n) now r = none
watch_event c formatted (process_terminated t) now r =
    if r.shutdown.shutting_down
    then cancelled_with none (handle_process_exit c t now r)
    else cancelled_with (some (exit_error formatted r.runtime_domain_generation t))
        (handle_process_exit c t now (note_exit t r))
