-- ===== src/Rapid/Shutdown/Gone.antt =====
-- internal/lambda/rapid/shutdown.go: the runtime goes before the extensions, at each step.
use lambda_runtime_init.Base.{
  ℕ, ◌≡◌, sym, ◌∙◌, ◌⊎◌, Bool, true, false, ◌||◌, Option, none, some, List, [], ◌∷◌, arith,
  if◌then◌else◌, Option-cases, Bool-cases, inl, inr, subst, get_elem?, if-true, if-false,
}
use lambda_runtime_init.Core.AgentsMap.{AgentRef}
use lambda_runtime_init.Rapid.{
  ProcessName, runtime_process, same_process, Output, terminates, kills, Settings, Rapid,
  release_external,
}
use lambda_runtime_init.Rapid.Exits.{
  get_exited_channel, find_process, close_channel, set_shutting_down,
}
use lambda_runtime_init.Rapid.Shutdown.{
  Goroutine, releases, waits, kills_agent, ShutdownPc, awaits_runtime, awaits_agents, awaits_exits,
  shut_down, Request, shutdown_agents, Select, exited_channel, deadline_channel, goroutine_step,
  clear_exited_channel, finished, main_step, goroutine_at,
}
use lambda_runtime_init.Rapid.Shutdown.Channels.{close-found}

unfoldable pub has_killed : ProcessName → List Output → Bool
unfolding same_process
has_killed name [] = false
has_killed name (kills n ∷ os) = same_process n name || has_killed name os
has_killed name (_ ∷ os) = has_killed name os

-- The runtime was not started, or it has exited, or it was killed.
abbrev pub RuntimeGone : ℕ → Rapid → Type 0
RuntimeGone g r =
    (get_exited_channel (runtime_process g) r ≡ none)
    ⊎ (get_exited_channel (runtime_process g) r ≡ some true)
    ⊎ (has_killed (runtime_process g) r.outputs ≡ true)

-- A shutdown that began as `b` has done nothing yet but ask the runtime to terminate.
abbrev pub OnlyTerminates : Rapid → ProcessName → Rapid → Type 0
OnlyTerminates b name r =
    (name ≡ runtime_process b.runtime_domain_generation)
    × (r.outputs ≡ terminates name ∷ b.outputs)
    × (r.renderer ≡ b.renderer)
    × (r.shutdown.agents_awaiting_exit ≡ b.shutdown.agents_awaiting_exit)

-- As long as the shutdown waits for the runtime it has only asked it to terminate; after that the
-- runtime is gone.
abbrev pub RuntimeFirst : Rapid → Rapid × ShutdownPc → Type 0
RuntimeFirst b (r, awaits_runtime name) = OnlyTerminates b name r
RuntimeFirst b (r, awaits_agents gs) = RuntimeGone b.runtime_domain_generation r
RuntimeFirst b (r, awaits_exits) = RuntimeGone b.runtime_domain_generation r
RuntimeFirst b (r, shut_down) = RuntimeGone b.runtime_domain_generation r

pub agents-first :
    (q : Request) (b r : Rapid)
    → RuntimeGone b.runtime_domain_generation r
    → RuntimeFirst b (shutdown_agents q r)
unfolding shutdown_agents get_exited_channel
agents-first q b r h = h

pub finished-first :
    (b : Rapid) (select : Select) (r : Rapid)
    → RuntimeGone b.runtime_domain_generation r
    → RuntimeFirst b (finished (clear_exited_channel select r) r)
unfolding clear_exited_channel get_exited_channel set_shutting_down find_process
finished-first b exited_channel r h = ground arith
finished-first b deadline_channel r h = h

pub kill-gone :
    (g : ℕ) (r : Rapid)
    → has_killed (runtime_process g) (kills (runtime_process g) ∷ r.outputs) ≡ true
unfolding has_killed
kill-gone g r = ground arith

pub main_step-first :
    (q : Request) (b : Rapid) (select : Select) (pc : ShutdownPc) (r : Rapid)
    → RuntimeFirst b (r, pc)
    → RuntimeFirst b (main_step q select pc r)
unfolding main_step get_exited_channel
main_step-first q b exited_channel (awaits_runtime name) r h =
    elim (Option-cases (get_exited_channel name r)) [
      | inl n ↦
          rw (main_step, n)
            (agents-first q b r (inl (subst (λ k. get_exited_channel k r ≡ none) h.0 n)))
      | inr (true, e) ↦
          rw (main_step, e)
            (agents-first q b r (inr (inl (subst (λ k. get_exited_channel k r ≡ some true) h.0 e))))
      | inr (false, e) ↦ rw (main_step, e) h
    ]
main_step-first q b deadline_channel (awaits_runtime name) r h =
    let k =
      subst
        (λ n. has_killed (runtime_process b.runtime_domain_generation) (kills n ∷ r.outputs) ≡ true)
        (sym h.0) (kill-gone b.runtime_domain_generation r) in
    agents-first q b (record r { outputs = kills name ∷ r.outputs }) (inr (inr k))
main_step-first q b exited_channel (awaits_agents []) r h = h
main_step-first q b deadline_channel (awaits_agents []) r h = h
main_step-first q b exited_channel (awaits_agents (x ∷ gs)) r h = h
main_step-first q b deadline_channel (awaits_agents (x ∷ gs)) r h = h
main_step-first q b exited_channel awaits_exits r h = finished-first b exited_channel r h
main_step-first q b deadline_channel awaits_exits r h = finished-first b deadline_channel r h
main_step-first q b exited_channel shut_down r h = h
main_step-first q b deadline_channel shut_down r h = h

-- One more kill leaves the runtime gone.
killed-more :
    (g : ℕ) (name : ProcessName) (r : Rapid)
    → RuntimeGone g r
    → RuntimeGone g (record r { outputs = kills name ∷ r.outputs })
unfolding has_killed get_exited_channel
killed-more g name r (inl n) = inl n
killed-more g name r (inr (inl e)) = inr (inl e)
killed-more g name r (inr (inr k)) = inr (inr (ground arith))

released-gone :
    (g : ℕ) (a : AgentRef) (r : Rapid) → RuntimeGone g r → RuntimeGone g (release_external a r)
unfolding release_external get_exited_channel
released-gone g a r h = elim (Option-cases (get_elem? r.memory.externals a.address)) [
  | inl n ↦ rw (release_external, n) h
  | inr (agent, e) ↦ rw (release_external, e) h
]

abbrev deadline_taken : Bool → ProcessName → Rapid → Rapid × Option Goroutine
deadline_taken b name r =
    if b then (record r { outputs = kills name ∷ r.outputs }, none) else (r, some (waits name))

goroutine_step-gone :
    (c : Settings) (select : Select) (x : Goroutine) (g : ℕ) (r : Rapid)
    → RuntimeGone g r
    → RuntimeGone g (goroutine_step c select x r).0
unfolding goroutine_step
goroutine_step-gone c exited_channel (releases name a) g r h = released-gone g a r h
goroutine_step-gone c deadline_channel (releases name a) g r h = released-gone g a r h
goroutine_step-gone c exited_channel (kills_agent name) g r h = killed-more g name r h
goroutine_step-gone c deadline_channel (kills_agent name) g r h = killed-more g name r h
goroutine_step-gone c exited_channel (waits name) g r h =
    elim (Option-cases (get_exited_channel name r)) [
      | inl n ↦ rw (goroutine_step, n) h
      | inr (true, e) ↦ rw (goroutine_step, e) h
      | inr (false, e) ↦ rw (goroutine_step, e) h
    ]
goroutine_step-gone c deadline_channel (waits name) g r h = elim (Bool-cases c.standalone_mode) [
  | inl s ↦ subst (λ b. RuntimeGone g (deadline_taken b name r).0) (sym s) (killed-more g name r h)
  | inr s ↦ subst (λ b. RuntimeGone g (deadline_taken b name r).0) (sym s) h
]

pub goroutine_at-first :
    (c : Settings) (select : Select) (i : ℕ) (b : Rapid) (pc : ShutdownPc) (r : Rapid)
    → RuntimeFirst b (r, pc)
    → RuntimeFirst b (goroutine_at c select i pc r)
goroutine_at-first c select i b (awaits_runtime name) r h = h
goroutine_at-first c select i b awaits_exits r h = h
goroutine_at-first c select i b shut_down r h = h
goroutine_at-first c select i b (awaits_agents gs) r h = elim (Option-cases (get_elem? gs i)) [
  | inl n ↦ rw (goroutine_at, n) h
  | inr (x, e) ↦
      rw (goroutine_at, e) (goroutine_step-gone c select x b.runtime_domain_generation r h)
]

-- The channel of the runtime after the exit of a process.
pub closed-gone :
    (g : ℕ) (name : ProcessName) (r s : Rapid)
    → close_channel name r ≡ some s
    → s.outputs ≡ r.outputs
    → RuntimeGone g r
    → RuntimeGone g s
closed-gone g name r s h o (inr (inr k)) = inr (inr (rw o k))
closed-gone g name r s h o gone =
    let (before, after) = close-found name (runtime_process g) r s h in
    elim (Bool-cases (same_process name (runtime_process g))) [
      | inl same ↦ inr (inl (after ∙ if-true _ _ same))
      | inr other ↦ elim gone [
        | inl n ↦ inl (after ∙ if-false _ _ other ∙ n)
        | inr (inl e) ↦ inr (inl (after ∙ if-false _ _ other ∙ e))
        | inr (inr k) ↦ inr (inr (rw o k))
      ]
    ]
