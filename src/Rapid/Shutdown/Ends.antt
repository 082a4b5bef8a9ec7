-- ===== src/Rapid/Shutdown/Ends.antt =====
-- internal/lambda/rapid/shutdown.go: a shutdown can always end once the processes have exited.
use lambda_runtime_init.Base.{
  ◌≡◌, ◌≢◌, refl, ap, ◌∙◌, ◌⊎◌, Bool, true, false, none, some, List, [], ◌∷◌, ◌++◌, arith,
  Bool-cases, inl, inr,
}
use lambda_runtime_init.Core.AgentsMap.{AgentRef}
use lambda_runtime_init.Core.Registrations.Queries.{get_external_agents}
use lambda_runtime_init.Rapid.{ProcessName, Output, same_process, Settings, Rapid, release_external}
use lambda_runtime_init.Rapid.Exits.{find_process, get_exited_channel, set_shutting_down}
use lambda_runtime_init.Rapid.Shutdown.{
  start_goroutines, Goroutine, releases, waits, kills_agent, ShutdownPc, awaits_runtime,
  awaits_agents, awaits_exits, shut_down, Request, shutdown_agents, exited_channel, goroutine_step,
  all_closed, clear_exited_channel, Step, goes_on, goroutine, main_step, step,
}
use lambda_runtime_init.Rapid.Shutdown.History.{run}

closed-found :
    (name : ProcessName) (m : List (ProcessName × Bool))
    → all_closed m ≡ true
    → (find_process name m ≡ none) ⊎ (find_process name m ≡ some true)
unfolding find_process
closed-found name [] h = inl refl
closed-found name ((n, false) ∷ m) h = absurd (cc)
closed-found name ((n, true) ∷ m) h = elim (Bool-cases (same_process n name)) [
  | inl same ↦ inr (rw (same, find_process) refl)
  | inr other ↦ rw (find_process, other) (closed-found name m h)
]

-- The steps by which the goroutines are done, the first one first.
abbrev pub schedule : List Goroutine → List Step
schedule [] = []
schedule (releases name a ∷ gs) =
    goroutine 0 exited_channel ∷ goroutine 0 exited_channel ∷ schedule gs
schedule (waits name ∷ gs) = goroutine 0 exited_channel ∷ schedule gs
schedule (kills_agent name ∷ gs) = goroutine 0 exited_channel ∷ schedule gs

abbrev last_steps : List Step
last_steps = goes_on exited_channel ∷ goes_on exited_channel ∷ []

-- The goroutines of the agents that are looked at once the runtime is gone.
abbrev goroutines_of : Rapid → List Goroutine
goroutines_of r = (start_goroutines r.runtime_domain_generation (get_external_agents r.service) r).1

-- A history that brings a shutdown to its end.
abbrev pub ending : Rapid → ShutdownPc → List Step
ending r (awaits_runtime name) = goes_on exited_channel ∷ schedule (goroutines_of r) ++ last_steps
ending r (awaits_agents gs) = schedule gs ++ last_steps
ending r awaits_exits = goes_on exited_channel ∷ []
ending r shut_down = []

-- It has ended: nobody shuts down any more, and no process is known.
abbrev pub HasEnded : Rapid × ShutdownPc → Type 0
HasEnded (r, pc) =
    (pc ≡ shut_down) × (r.shutdown.shutting_down ≡ false) × (r.shutdown.runtime_domain_exited ≡ [])

released-shutdown : (a : AgentRef) (r : Rapid) → (release_external a r).shutdown ≡ r.shutdown
unfolding release_external
released-shutdown a r = ground arith

module _ (c : Settings) (q : Request) where
  wait-done :
      (name : ProcessName) (gs : List Goroutine) (r : Rapid) (es : List Step)
      → all_closed r.shutdown.runtime_domain_exited ≡ true
      → run c q (goroutine 0 exited_channel ∷ es) (r, awaits_agents (waits name ∷ gs))
        ≡ run c q es (r, awaits_agents gs)
  unfolding run step goroutine_step get_exited_channel
  wait-done name gs r es h = elim (closed-found name r.shutdown.runtime_domain_exited h) [
    | inl n ↦ rw (run, step, goroutine_step, get_exited_channel, n) refl
    | inr e ↦ rw (run, step, goroutine_step, get_exited_channel, e) refl
  ]

  last-ended :
      (r : Rapid)
      → all_closed r.shutdown.runtime_domain_exited ≡ true
      → (w : Rapid × ShutdownPc) × (run c q last_steps (r, awaits_agents []) ≡ some w) × HasEnded w
  unfolding run step main_step clear_exited_channel set_shutting_down
  last-ended r h = (
    (main_step q exited_channel awaits_exits r),
    refl,
    (ground arith, ground arith, ground arith),
  )

  drain :
      (gs : List Goroutine) (r : Rapid)
      → all_closed r.shutdown.runtime_domain_exited ≡ true
      → (w : Rapid × ShutdownPc) × (run c q (schedule gs ++ last_steps) (r, awaits_agents gs)
          ≡ some w)
        × HasEnded w
  unfolding run step goroutine_step
  drain [] r h = last-ended r h
  drain (waits name ∷ gs) r h =
      let (w, runs, ends) = drain gs r h in
      (w, wait-done name gs r (schedule gs ++ last_steps) h ∙ runs, ends)
  drain (kills_agent name ∷ gs) r h =
      drain gs (record r { outputs = Output.kills name ∷ r.outputs }) h
  drain (releases name a ∷ gs) r h =
      let s = release_external a r in
      let closed : all_closed s.shutdown.runtime_domain_exited ≡ true =
        ap (λ x. all_closed x.runtime_domain_exited) (released-shutdown a r) ∙ h in
      let (w, runs, ends) = drain gs s closed in
      (w, wait-done name gs s (schedule gs ++ last_steps) closed ∙ runs, ends)

  runtime-wait :
      (name : ProcessName) (r : Rapid) (es : List Step)
      → all_closed r.shutdown.runtime_domain_exited ≡ true
      → run c q (goes_on exited_channel ∷ es) (r, awaits_runtime name)
        ≡ run c q es (shutdown_agents q r)
  unfolding run step main_step get_exited_channel
  runtime-wait name r es h = elim (closed-found name r.shutdown.runtime_domain_exited h) [
    | inl n ↦ rw (run, step, main_step, get_exited_channel, n) refl
    | inr e ↦ rw (run, step, main_step, get_exited_channel, e) refl
  ]

  -- Wherever a shutdown is, once every process that was started has exited: this history of steps,
  -- without any deadline, brings it to its end, and then no process is known any more.
  pub run-ending :
      (r : Rapid) (pc : ShutdownPc)
      → all_closed r.shutdown.runtime_domain_exited ≡ true
      → pc ≢ shut_down
      → (w : Rapid × ShutdownPc) × (run c q (ending r pc) (r, pc) ≡ some w) × HasEnded w
  unfolding run step main_step clear_exited_channel set_shutting_down shutdown_agents
  run-ending r (awaits_runtime name) h n =
      let gs = goroutines_of r in
      let next = (shutdown_agents q r).0 in
      let (w, runs, ends) = drain gs next h in
      (w, runtime-wait name r (schedule gs ++ last_steps) h ∙ runs, ends)
  run-ending r (awaits_agents gs) h n = drain gs r h
  run-ending r awaits_exits h n =
      (main_step q exited_channel awaits_exits r, refl, (ground arith, ground arith, ground arith))
  run-ending r shut_down h n = absurd (n refl)
