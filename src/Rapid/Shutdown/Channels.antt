-- ===== src/Rapid/Shutdown/Channels.antt =====
-- internal/lambda/rapid/shutdown.go: the map of exited channels.
use text.Mathlib.TextEquality.{eq_iff}
use lambda_runtime_init.Base.{
  ◌≡◌, refl, sym, ap, ◌∙◌, Bool, true, false, ◌&&◌, some, List, [], ◌∷◌, str_eq, arith,
  if◌then◌else◌, Bool-cases, inl, inr, ◌==◌, ==_iff, subst,
}
use lambda_runtime_init.Rapid.{
  ProcessName, runtime_process, extension_process, other_process, same_process, Rapid,
}
use lambda_runtime_init.Rapid.Exits.{
  find_process, put_process, get_exited_channel, create_exited_channel, close_channel,
}

pub same_process_refl : (n : ProcessName) → same_process n n ≡ true
unfolding same_process
same_process_refl (runtime_process g) = (==_iff g g).1 refl
same_process_refl (extension_process a g) = ground (arith, eq_iff a a, ==_iff g g)
same_process_refl (other_process a) = (eq_iff a a).1 refl

and-true : (a b : Bool) → (a && b) ≡ true → (a ≡ true) × (b ≡ true)
and-true true true h = (refl, refl)
and-true true false h = absurd (cc)
and-true false b h = absurd (cc)

pub same_process-eq : (m n : ProcessName) → same_process m n ≡ true → m ≡ n
unfolding same_process
same_process-eq (runtime_process g) (runtime_process h) e = ap runtime_process ((==_iff g h).0 e)
same_process-eq (extension_process a g) (extension_process b h) e =
    let (p, q) = and-true (str_eq a b) (g == h) e in cc ((eq_iff a b).0 p, (==_iff g h).0 q)
same_process-eq (other_process a) (other_process b) e = ap other_process ((eq_iff a b).0 e)
same_process-eq (runtime_process g) (extension_process b h) e = absurd (cc)
same_process-eq (runtime_process g) (other_process b) e = absurd (cc)
same_process-eq (extension_process a g) (runtime_process h) e = absurd (cc)
same_process-eq (extension_process a g) (other_process b) e = absurd (cc)
same_process-eq (other_process a) (runtime_process h) e = absurd (cc)
same_process-eq (other_process a) (extension_process b h) e = absurd (cc)

-- What is found after an entry is written.
pub find-put :
    {V : Type 0} (asked name : ProcessName) (v : V) (m : List (ProcessName × V))
    → find_process asked (put_process name v m)
      ≡ (if same_process name asked then some v else find_process asked m)
unfolding find_process put_process
find-put asked name v [] = refl
find-put asked name v ((n, w) ∷ m) = elim (Bool-cases (same_process n name)) [
  | inl same ↦
      rw (put_process, same)
        (subst
          (λ k. find_process asked ((name, v) ∷ m) ≡ (
            if same_process name asked
            then some v
            else (if same_process k asked then some w else find_process asked m)))
          (sym (same_process-eq n name same)) (ground arith))
  | inr other ↦
      rw (put_process, other)
        (elim (Bool-cases (same_process n asked)) [
          | inl hit ↦
              let apart : same_process name asked ≡ false =
                elim (Bool-cases (same_process name asked)) [
                  | inr no' ↦ no'
                  | inl clash ↦
                      let same : n ≡ name =
                        same_process-eq n asked hit ∙ sym (same_process-eq name asked clash) in
                      let loop : same_process n name ≡ true =
                        subst (λ k. same_process n k ≡ true) same (same_process_refl n) in
                      absurd (cc)
                ] in
              rw (hit, apart, find_process) refl
          | inr miss ↦ rw (miss, find_process, find-put asked name v m) refl
        ])
]

-- A channel is closed once only, and the others stay as they are.
pub close-found :
    (name asked : ProcessName) (r s : Rapid)
    → close_channel name r ≡ some s
    → (get_exited_channel name r ≡ some false)
      × (get_exited_channel asked s
          ≡ (if same_process name asked then some true else get_exited_channel asked r))
unfolding close_channel
close-found name asked r s h =
    ground (arith, find-put asked name true r.shutdown.runtime_domain_exited)

-- A channel is made only where there was none.
pub create-found :
    (name asked : ProcessName) (r s : Rapid)
    → create_exited_channel name r ≡ some s
    → get_exited_channel asked s
      ≡ (if same_process name asked then some false else get_exited_channel asked r)
unfolding create_exited_channel
create-found name asked r s h =
    ground (arith, find-put asked name false r.shutdown.runtime_domain_exited)
