-- ===== src/Rapid/Init/History.antt =====
-- internal/lambda/rapid/handlers.go, `doRuntimeDomainInit`: histories of an init, in which the others
-- do what they like while it waits.
use lambda_runtime_init.Base.{
  ℕ, ◌≡◌, refl, sym, ap, arith, ◌∙◌, Bool, List, some, none, [], ◌∷◌, ◌++◌, Bool-cases, inl, inr,
  subst, if-true, if-false, length, u16,
}
use lambda_runtime_init.Core.Error.{Error}
use lambda_runtime_init.Core.Gate.{Await, blocked, passed}
use lambda_runtime_init.Core.InitFlow
use lambda_runtime_init.Core.Runtime.Methods.{new_runtime}
use lambda_runtime_init.Core.InvokeFlow
use lambda_runtime_init.Core.Registrations.{Memory, off, preregister_runtime}
use lambda_runtime_init.Core.Registrations.Agents.{Call, run}
use lambda_runtime_init.Core.Registrations.Limits.{NoClear, run-off}
use lambda_runtime_init.Appctx.{ApplicationContext, store_sandbox_type}
use lambda_runtime_init.Fatalerror.{invalid_entrypoint, invalid_working_dir}
use lambda_runtime_init.Rapid.{
  Phase, sends_init_start, Settings, Rapid, runtime_done_error, output, next_generation,
}
use lambda_runtime_init.Rapid.{call_agent}
use lambda_runtime_init.Rapid.Exits.{Termination, handle_process_exit, close_channel}
use lambda_runtime_init.Rapid.Launch.{
  Launch, Launched, launched, refused, launch_panicked, launch_agents,
}
use lambda_runtime_init.Rapid.Init.{
  InitPc, awaits_extensions, awaits_runtime, awaits_agents, Progress, waits,
}
use lambda_runtime_init.Rapid.Init.{
  finish, exec_runtime, start_runtime, init_extensions, init_begins, complete, await_agents,
  init_resumes, unless_failed, runtime_socketed, after_launches, at_gate, fails_done,
  init_flow_call,
}
use lambda_runtime_init.Rapid.Init.Result.{reports, Sound, finish-failed, launches-Keeps}
use lambda_runtime_init.Rapid.Init.Sound.{
  done-failed, complete-Sound, await_agents-Sound, unless-Sound, error-Sound, socketed-Sound,
}

module _ (c : Settings) (phase : Phase) (l : Launch) (d : Bool) (n : ℕ) where
  start-Sound :
      (r : Rapid) → r.init_done ≡ d → reports r.outputs ≡ n → Sound d n (start_runtime c phase l r)
  unfolding start_runtime exec_runtime
  start-Sound r h k =
      let registered = preregister_runtime (length r.memory.runtimes) r.service in
      let s = record r {
        app = store_sandbox_type l.sandbox_type r.app;
        memory = record r.memory { runtimes = r.memory.runtimes ++ new_runtime l.runtime_now ∷ [] };
        service = registered.0;
      } in
      error-Sound c phase d n registered.1 (exec_runtime c phase l) s h k (
        unless-Sound c phase d n l.cmd_failure invalid_entrypoint
          (unless_failed c phase l.cwd_failure invalid_working_dir
            (runtime_socketed c phase l l.sockets_error))
          s h k
          (unless-Sound c phase d n l.cwd_failure invalid_working_dir
            (runtime_socketed c phase l l.sockets_error) s h k
            (socketed-Sound c phase d n l l.sockets_error s h k)))

  launched-Sound :
      (w : Rapid × Launched)
      → w.0.init_done ≡ d
      → reports w.0.outputs ≡ n
      → Sound d n (after_launches c phase w)
  launched-Sound (r, launched) h k = (h, k)
  launched-Sound (r, refused e) h k = finish-failed c phase e d n r h k
  launched-Sound (r, launch_panicked) h k = tt

  extensions-Sound :
      (r : Rapid)
      → r.init_done ≡ d
      → reports r.outputs ≡ n
      → Sound d n (init_extensions c phase l r)
  unfolding init_extensions
  extensions-Sound r h k =
      let counted =
        init_flow_call (λ f. InitFlow.set_external_agents_register_count f (u16 (length l.agents)))
          r in
      let (h', k') = launches-Keeps c l.agents counted.0 in
      error-Sound c phase d n counted.1 (λ s. after_launches c phase (launch_agents c l.agents s))
        counted.0 h k (launched-Sound (launch_agents c l.agents counted.0) (h' ∙ h) (k' ∙ k))

  begins-Sound :
      (r : Rapid) → r.init_done ≡ d → reports r.outputs ≡ n → Sound d n (init_begins c phase l r)
  unfolding init_begins next_generation
  begins-Sound r h k =
      let begun = next_generation (output (sends_init_start phase) r) in
      elim (Bool-cases c.extensions_enabled) [
        | inl on' ↦ subst (Sound d n) (sym (if-true _ _ on')) (extensions-Sound begun h k)
        | inr off' ↦ subst (Sound d n) (sym (if-false _ _ off')) (start-Sound begun h k)
      ]

  gate-Sound :
      (pc : InitPc) (a : Await) (fails : Error → Rapid → Rapid × Progress)
      (goes_on : Rapid → Rapid × Progress) (r : Rapid)
      → Sound d n (r, waits pc)
      → ((e : Error) → Sound d n (fails e r))
      → Sound d n (goes_on r)
      → Sound d n (at_gate pc a fails goes_on r)
  gate-Sound pc blocked fails goes_on r s f g = s
  gate-Sound pc (passed (some e)) fails goes_on r s f g = f e
  gate-Sound pc (passed none) fails goes_on r s f g = g

  resumes-Sound :
      (pc : InitPc) (r : Rapid) → Sound d n (r, waits pc) → Sound d n (init_resumes c phase l pc r)
  unfolding init_resumes
  resumes-Sound awaits_extensions r (h, k) =
      gate-Sound awaits_extensions (InitFlow.await_external_agents_registered r.service.init_flow)
        (λ e s. finish c phase (some e) s) (start_runtime c phase l) r (h, k)
        (λ e. finish-failed c phase e d n r h k) (start-Sound r h k)
  resumes-Sound awaits_runtime r (h, k) =
      gate-Sound awaits_runtime (InitFlow.await_runtime_restore_ready r.service.init_flow)
        (fails_done c phase) (await_agents c phase) r (h, k)
        (λ e. done-failed c phase d n runtime_done_error e r h k)
        (await_agents-Sound c phase d n r h k)
  resumes-Sound awaits_agents r (h, k, o) =
      gate-Sound awaits_agents (InitFlow.await_agents_ready r.service.init_flow)
        (fails_done c phase) (complete c phase) r (h, k, o)
        (λ e. done-failed c phase d n runtime_done_error e r h k) (complete-Sound c phase d n r k o)

-- What others do while an init waits: they ask the registration service, other than to be cleared;
-- the watcher handles an exit; a handler stores something in the context, or calls methods of the
-- agents and of the runtime, which also move the flows.
pub data Other (c : Settings) (r s : Rapid) : Type 0 where
  asks :
      (calls : List Call)
      → NoClear calls
      → s ≡ record r {
        memory = (run (r.memory, r.service) calls).0;
        service = (run (r.memory, r.service) calls).1;
      }
      → Other c r s
  handles : (t : Termination) (now : ℕ) → handle_process_exit c t now r ≡ some s → Other c r s
  stores : (app : ApplicationContext) → s ≡ record r { app = app } → Other c r s
  moves :
      (memory : Memory) (f : InitFlow.InitFlow) (g : InvokeFlow.InvokeFlow)
      → s ≡ record r {
        memory = memory;
        service = record r.service { init_flow = f; invoke_flow = g };
      }
      → Other c r s

-- What they leave alone by that.
record Left (r s : Rapid) : Type 0 where
  same_done : s.init_done ≡ r.init_done
  same_reports : reports s.outputs ≡ reports r.outputs
  stays_off : r.service.state ≡ off → s.service.state ≡ off

exit-same :
    (c : Settings) (t : Termination) (now : ℕ) (r s : Rapid)
    → handle_process_exit c t now r ≡ some s
    → (s.init_done ≡ r.init_done) × (s.outputs ≡ r.outputs) × (s.service.state ≡ r.service.state)
unfolding handle_process_exit call_agent close_channel
exit-same c t now r s h = ground arith

Other-Left : {c : Settings} {r s : Rapid} → Other c r s → Left r s
Other-Left {c} {r} (asks calls n e) = rw e (record {
  same_done = refl;
  same_reports = refl;
  stays_off = λ o. (run-off (r.memory, r.service) calls n o).3 ∙ o;
})
Other-Left {c} {r} {s} (handles t now h) =
    let (done, outputs, state) = exit-same c t now r s h in
    record { same_done = done; same_reports = ap reports outputs; stays_off = λ o. state ∙ o }
Other-Left (stores app e) =
    rw e (record { same_done = refl; same_reports = refl; stays_off = λ o. o })
Other-Left (moves memory f g e) =
    rw e (record { same_done = refl; same_reports = refl; stays_off = λ o. o })

-- The steps of an init.
pub data Goes (c : Settings) (phase : Phase) (l : Launch)
    : Rapid × Progress → Rapid × Progress → Type 0 where
  resumed :
      {pc : InitPc} {r : Rapid} {w : Rapid × Progress}
      → w ≡ init_resumes c phase l pc r
      → Goes c phase l (r, waits pc) w
  others : {pc : InitPc} {r s : Rapid} → Other c r s → Goes c phase l (r, waits pc) (s, waits pc)

pub data Reach (c : Settings) (phase : Phase) (l : Launch) (w : Rapid × Progress)
    : Rapid × Progress → Type 0 where
  here : Reach c phase l w w
  next : {u v : Rapid × Progress} → Reach c phase l w u → Goes c phase l u v → Reach c phase l w v

Left-Sound :
    (d : Bool) (n : ℕ) (pc : InitPc) (r s : Rapid)
    → Left r s
    → Sound d n (r, waits pc)
    → Sound d n (s, waits pc)
Left-Sound d n awaits_extensions r s o (h, k) = (o.same_done ∙ h, o.same_reports ∙ k)
Left-Sound d n awaits_runtime r s o (h, k) = (o.same_done ∙ h, o.same_reports ∙ k)
Left-Sound d n awaits_agents r s o (h, k, q) = (o.same_done ∙ h, o.same_reports ∙ k, o.stays_off q)

goes-Sound :
    {c : Settings} {phase : Phase} {l : Launch} {u v : Rapid × Progress} (d : Bool) (n : ℕ)
    → Goes c phase l u v
    → Sound d n u
    → Sound d n v
goes-Sound {c} {phase} {l} d n (resumed {pc} {r} e) s =
    subst (Sound d n) (sym e) (resumes-Sound c phase l d n pc r s)
goes-Sound d n (others {pc} {r} {s = t} o) s = Left-Sound d n pc r t (Other-Left o) s

reach-Sound :
    {c : Settings} {phase : Phase} {l : Launch} {w v : Rapid × Progress} (d : Bool) (n : ℕ)
    → Reach c phase l w v
    → Sound d n w
    → Sound d n v
reach-Sound d n here s = s
reach-Sound d n (next path g) s = goes-Sound d n g (reach-Sound d n path s)

-- However an init goes, and whatever others do while it waits: ask the registration service, other
-- than to be cleared, handle the exit of a process, store something in the context, or call methods of
-- the agents and of the runtime. Until it ends it sends no report and the flag `initDone` stays as it
-- was. When it ends it has sent one report. If it ends with no error the flag is set and the
-- registration service is off; with an error the flag is as before.
pub init-Sound :
    (c : Settings) (phase : Phase) (l : Launch) (r : Rapid) (w : Rapid × Progress)
    → Reach c phase l (init_begins c phase l r) w
    → Sound r.init_done (reports r.outputs) w
init-Sound c phase l r w path =
    reach-Sound r.init_done (reports r.outputs) path
      (begins-Sound c phase l r.init_done (reports r.outputs) r refl refl)
