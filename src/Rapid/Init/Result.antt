-- ===== src/Rapid/Init/Result.antt =====
-- internal/lambda/rapid/handlers.go, `doRuntimeDomainInit`: what an init leaves behind, whatever the
-- others do while it waits.
use lambda_runtime_init.Base.{
  ℕ, ◌+◌, ◌≡◌, refl, ◌∙◌, Bool, true, Option, none, some, List, [], ◌∷◌, arith, Bool-cases, inl,
  inr, ltb,
}
use lambda_runtime_init.Core.Error.{Error, too_many_extensions}
use lambda_runtime_init.Core.AgentsMap.{AgentRef}
use lambda_runtime_init.Core.Registrations.{
  off, Created, max_agents_allowed, count_agents, created, failed, create_external_agent,
}
use lambda_runtime_init.Core.Registrations.Queries.{AgentInfo, agents_info}
use lambda_runtime_init.Rapid.{
  ProcessName, extension_process, Phase, Output, executes, sends_init_report, sends_extension_init,
  Settings, Rapid, call_agent, output,
}
use lambda_runtime_init.Rapid.Exits.{create_exited_channel}
use lambda_runtime_init.Rapid.Launch.{
  AgentLaunch, report_launch_error, Launched, launched, refused, launch_panicked, channelled,
  executed, socketed, with_made, next_launch, exec_agent, launch_agent, launch_agents,
}
use lambda_runtime_init.Rapid.Init.{
  awaits_extensions, awaits_runtime, awaits_agents, Progress, waits, ended, panicked,
}
use lambda_runtime_init.Rapid.Init.{log_each, log_agents_init_status, finish}

-- How many reports of inits were sent.
abbrev pub reports : List Output → ℕ
reports [] = 0
reports (sends_init_report phase ∷ os) = reports os + 1
reports (_ ∷ os) = reports os

-- A step inside an init.
abbrev pub Keeps : Rapid → Rapid → Type 0
Keeps r s = (s.init_done ≡ r.init_done) × (reports s.outputs ≡ reports r.outputs)

Keeps-trans : (r s t : Rapid) → Keeps r s → Keeps s t → Keeps r t
Keeps-trans r s t (a, b) (a', b') = (a' ∙ a, b' ∙ b)

launch_error-Keeps :
    (c : Settings) (a : AgentRef) (e : Error) (now : ℕ) (r : Rapid)
    → Keeps r (report_launch_error c a e now r)
unfolding report_launch_error call_agent
launch_error-Keeps c a e now r = ground arith

pub channel-Keeps :
    (name : ProcessName) (r : Rapid) → Keeps r (channelled r (create_exited_channel name r)).0
unfolding create_exited_channel
channel-Keeps name r = ground arith

executed-Keeps :
    (c : Settings) (l : AgentLaunch) (a : AgentRef) (o : Option Error) (r : Rapid)
    → Keeps r (executed c l a o r).0
executed-Keeps c l a none r = channel-Keeps (extension_process l.name r.runtime_domain_generation) r
executed-Keeps c l a (some err) r = launch_error-Keeps c a err l.now r

socketed-Keeps :
    (c : Settings) (l : AgentLaunch) (a : AgentRef) (o : Option Error) (r : Rapid)
    → Keeps r (socketed c l a o r).0
socketed-Keeps c l a none r =
    executed-Keeps c l a l.exec_error
      (output (executes (extension_process l.name r.runtime_domain_generation)) r)
socketed-Keeps c l a (some err) r = (refl, refl)

made-Keeps :
    (c : Settings) (l : AgentLaunch) (made : Created) (r : Rapid) → Keeps r (with_made c l made r).0
unfolding exec_agent
made-Keeps c l (failed e) r = (refl, refl)
made-Keeps c l (created a) r = elim (Bool-cases (ltb max_agents_allowed (count_agents r.service))) [
  | inl many ↦ rw (exec_agent, many) (launch_error-Keeps c a too_many_extensions l.now r)
  | inr few ↦ rw (exec_agent, few) (socketed-Keeps c l a l.sockets_error r)
]

launch-Keeps : (c : Settings) (l : AgentLaunch) (r : Rapid) → Keeps r (launch_agent c l r).0
unfolding launch_agent
launch-Keeps c l r =
    let made = create_external_agent l.name l.id l.now r.memory r.service in
    made-Keeps c l made.2 (record r { memory = made.0; service = made.1 })

next-Keeps :
    (r : Rapid) (first rest : Rapid × Launched)
    → Keeps r first.0
    → Keeps first.0 rest.0
    → Keeps r (next_launch first rest).0
next-Keeps r (s, launched) rest k m = Keeps-trans r s rest.0 k m
next-Keeps r (s, refused e) rest k m = k
next-Keeps r (s, launch_panicked) rest k m = k

pub launches-Keeps :
    (c : Settings) (ls : List AgentLaunch) (r : Rapid) → Keeps r (launch_agents c ls r).0
unfolding launch_agents
launches-Keeps c [] r = (refl, refl)
launches-Keeps c (l ∷ ls) r =
    let first = launch_agent c l r in
    next-Keeps r first (launch_agents c ls first.0) (launch-Keeps c l r)
      (launches-Keeps c ls first.0)

-- What an init that began with the flag `d` and after `n` reports has come to.
abbrev pub Sound : Bool → ℕ → Rapid × Progress → Type 0
Sound d n (s, waits awaits_agents) =
    (s.init_done ≡ d) × (reports s.outputs ≡ n) × (s.service.state ≡ off)
Sound d n (s, waits awaits_runtime) = (s.init_done ≡ d) × (reports s.outputs ≡ n)
Sound d n (s, waits awaits_extensions) = (s.init_done ≡ d) × (reports s.outputs ≡ n)
Sound d n (s, ended none) =
    (s.init_done ≡ true) × (reports s.outputs ≡ n + 1) × (s.service.state ≡ off)
Sound d n (s, ended (some e)) = (s.init_done ≡ d) × (reports s.outputs ≡ n + 1)
Sound d n (s, panicked) = Unit {0}

log-Keeps :
    (is : List AgentInfo) (r : Rapid)
    → Keeps r (log_each is r) × ((log_each is r).service ≡ r.service)
log-Keeps [] r = ((refl, refl), refl)
log-Keeps (i ∷ is) r = log-Keeps is (output (sends_extension_init i) r)

pub finish-failed :
    (c : Settings) (phase : Phase) (e : Error) (d : Bool) (n : ℕ) (r : Rapid)
    → r.init_done ≡ d
    → reports r.outputs ≡ n
    → Sound d n (finish c phase (some e) r)
unfolding finish log_agents_init_status
finish-failed c phase e d n r h k = ground (arith, log-Keeps (agents_info r.memory r.service) r)

pub finish-completed :
    (c : Settings) (phase : Phase) (d : Bool) (n : ℕ) (r : Rapid)
    → r.init_done ≡ true
    → reports r.outputs ≡ n
    → r.service.state ≡ off
    → Sound d n (finish c phase none r)
unfolding finish log_agents_init_status
finish-completed c phase d n r h k o = ground (arith, log-Keeps (agents_info r.memory r.service) r)
