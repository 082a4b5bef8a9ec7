-- ===== src/Rapidcore/Server/Outcomes.antt =====
-- Replies and reservations over all histories, and what an invoke leaves behind.
use lambda_runtime_init.Base.{
  ℕ, ◌+◌, ◌≤◌, ◌≡◌, refl, ◌≢◌, Option, none, some, List, [], ◌∷◌, String, arith, if◌then◌else◌,
}
use lambda_runtime_init.Rapidcore.Server.{
  idle, InvokeContext, Server, ok, waits, Reservation, set_new_invoke_context,
}
use lambda_runtime_init.Rapidcore.Server.Send.{
  Delivery, Reply, send_response, send_error_response, send_init_error_response,
  try_send_default_error_response,
}
use lambda_runtime_init.Rapidcore.Server.Wait.{InvokeOutcome, failed, reads_done, reads_cancel}
use lambda_runtime_init.Rapidcore.Server.Steps.{
  Op, inits, init_completes, awaits_initialized, clears, releases, shuts_down, runtime_is_ready,
  reserves, invokes, responds, responds_error, responds_init_error, finishes, ends, awaits_release,
  resets, step, run,
}
use lambda_runtime_init.Rapidcore.Server.Invoke.{InvokeEnd, timed_out, released, invoke_ends}
use lambda_runtime_init.Rapidcore.Server.Spec.{phase, free}

abbrev some_reply : Option Reply → ℕ
some_reply none = 0
some_reply (some _) = 1

-- The default response of a failed invoke.
abbrev default_reply : ℕ → Server → Delivery → InvokeOutcome → ℕ
default_reply max s d (failed e) =
    if s.has_invoker then some_reply (try_send_default_error_response max d s).reply else 0
default_reply max s d _ = 0

-- The replies that a step delivers, and the reservations that it makes.
abbrev pub delivered : ℕ → Server → Op → ℕ
delivered max s (responds id d) = some_reply (send_response max id d s).reply
delivered max s (responds_error id d) = some_reply (send_error_response max id d s).reply
delivered max s (responds_init_error e d) = some_reply (send_init_error_response max e d s).reply
delivered max s (finishes d o) = default_reply max s d o
delivered max s _ = 0

abbrev pub reservations : ℕ → Server → Op → ℕ
reservations max s (reserves r) = elim s.invoke_ctx [ none ↦ 1 | some _ ↦ 0 ]
reservations max s _ = 0

abbrev pub total : (ℕ → Server → Op → ℕ) → ℕ → Server → List Op → ℕ
total w max s [] = 0
total w max s (o ∷ os) = w max s o + total w max (step max s o).0 os

-- Whether a reservation has no reply.
abbrev pub unanswered : Server → ℕ
unanswered s = elim s.invoke_ctx [ none ↦ 0 | some c ↦ if c.reply_sent then 0 else 1 ]

finished-unanswered :
    (max : ℕ) (s : Server) (d : Delivery) (e : String) (o : Option InvokeContext)
    → s.invoke_ctx ≡ o
    → delivered max s (finishes d (failed e)) + unanswered (step max s (finishes d (failed e))).0
      ≤ unanswered s
unfolding step
finished-unanswered max s d e none h = ground arith
finished-unanswered max s d e (some c) h = ground arith

step-unanswered :
    (max : ℕ) (s : Server) (o : Op)
    → delivered max s o + unanswered (step max s o).0 ≤ reservations max s o + unanswered s
unfolding step
step-unanswered max s (inits timeout) = ground arith
step-unanswered max s (init_completes none) = ground arith
step-unanswered max s (init_completes (some f)) = ground arith
step-unanswered max s awaits_initialized = ground arith
step-unanswered max s clears = ground arith
step-unanswered max s releases = ground arith
step-unanswered max s shuts_down = ground arith
step-unanswered max s runtime_is_ready = ground arith
step-unanswered max s (reserves r) = ground arith
step-unanswered max s (invokes w direct already_written) = ground arith
step-unanswered max s (responds id d) = ground arith
step-unanswered max s (responds_error id d) = ground arith
step-unanswered max s (responds_init_error e d) = ground arith
step-unanswered max s (finishes d (failed e)) =
    omega (arith, finished-unanswered max s d e s.invoke_ctx refl)
step-unanswered max s (finishes d o) = ground arith
step-unanswered max s (ends none) = ground arith
step-unanswered max s (ends (some m)) = ground arith
step-unanswered max s (awaits_release reads_done) = ground arith
step-unanswered max s (awaits_release reads_cancel) = ground arith
step-unanswered max s (resets m e) = ground arith

-- No reservation is replied to twice: over any history the replies delivered are no more than the
-- reservations made, and one more if a reservation had no reply at the start.
pub replies-le-reservations :
    (max : ℕ) (s : Server) (os : List Op)
    → total delivered max s os + unanswered (run max s os)
      ≤ total reservations max s os + unanswered s
unfolding run
replies-le-reservations max s [] = omega arith
replies-le-reservations max s (o ∷ os) =
    omega (arith, step-unanswered max s o, replies-le-reservations max (step max s o).0 os)

-- However an invoke ends, by its timeout, a failure or a success, unless it still waits: nothing is
-- reserved afterwards, the server is idle, and the next reservation is granted.
pub invoke_ends-free :
    (how : InvokeEnd) (s : Server) (id : String) (r : Reservation)
    → (invoke_ends how s).1 ≢ waits
    → let s' = (invoke_ends how s).0 in
      (phase s' ≡ free) × (s'.rapid_phase ≡ idle) × ((set_new_invoke_context id r s').1 ≡ ok)
unfolding invoke_ends set_new_invoke_context
invoke_ends-free (timed_out x reads_done y) s id r h = ground arith
invoke_ends-free (timed_out x reads_cancel y) s id r h = ground arith
invoke_ends-free (released reads_done x) s id r h = ground arith
invoke_ends-free (released reads_cancel x) s id r h = ground arith
