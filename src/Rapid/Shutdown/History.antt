-- ===== src/Rapid/Shutdown/History.antt =====
-- internal/lambda/rapid/shutdown.go: histories of a shutdown.
use lambda_runtime_init.Base.{◌≡◌, Option, none, some, List, [], ◌∷◌, Option-cases, inl, inr, subst}
use lambda_runtime_init.Rapid.{Settings, Rapid}
use lambda_runtime_init.Rapid.Shutdown.{ShutdownPc, Request, Step, step}

module _ (c : Settings) (q : Request) where
  -- A history of steps; `none` if the watcher of events panicked.
  unfoldable pub run : List Step → Rapid × ShutdownPc → Option (Rapid × ShutdownPc)
  run [] w = some w
  run (e ∷ es) w = elim (step c q e w) [ none ↦ none | some w' ↦ run es w' ]

  -- An invariant of the steps holds after a history.
  pub run-invariant :
      (P : Rapid × ShutdownPc → Type 0)
      → ((e : Step) (w w' : Rapid × ShutdownPc) → P w → step c q e w ≡ some w' → P w')
      → (es : List Step) (w w' : Rapid × ShutdownPc) → P w
      → run es w ≡ some w'
      → P w'
  unfolding run
  run-invariant P keep [] w w' p h = subst P (cc h) p
  run-invariant P keep (e ∷ es) w w' p h = elim (Option-cases (step c q e w)) [
    | inl n ↦ absurd (cc (rw (run, n) at h))
    | inr (v, s) ↦ run-invariant P keep es v w' (keep e w v p s) (rw (run, s) at h)
  ]
