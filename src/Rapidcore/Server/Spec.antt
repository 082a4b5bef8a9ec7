-- ===== src/Rapidcore/Server/Spec.antt =====
-- What the server promises of a reservation: an automaton, which the server refines.
use lambda_runtime_init.Base.{
  ℕ, ◌≡◌, refl, ◌⊎◌, Bool, Option, none, some, ◌≢◌, String, arith, if◌then◌else◌,
}
use text.Mathlib.TextEquality.{eq_iff}
use lambda_runtime_init.Rapidcore.Server.{
  ServerError, not_reserved, already_reserved, already_replied, already_invocating,
  invalid_invoke_id, response_sent, reply_stream_not_available, InvokeContext, Server, Result, ok,
  error, Reservation, set_new_invoke_context, set_reply_stream, release,
}
use lambda_runtime_init.Rapidcore.Server.Send.{Delivery, Sent, send_response_unsafe}

-- Nothing is reserved; an invoke is reserved by its ID; its caller waits for the reply, or has it.
pub data Phase : Type 0 where
  free : Phase
  reserved : String → Phase
  invoking : String → Phase
  replied : String → Phase

abbrev pub phase_of : InvokeContext → Phase
phase_of c = if c.reply_sent then replied c.token.invoke_id else elim c.reply_stream [
  | none ↦ reserved c.token.invoke_id
  | some _ ↦ invoking c.token.invoke_id
]

abbrev pub phase : Server → Phase
phase s = elim s.invoke_ctx [ none ↦ free | some c ↦ phase_of c ]

-- The four calls that concern the reservation.
pub data Call : Type 0 where
  reserves : String → Reservation → Call
  invokes : ℕ → Bool → Call
  replies : String → Delivery → Bool → Call
  releases : Call

abbrev pub of_sent : Sent → Server × Result
of_sent r = (r.server, r.result)

unfoldable pub serve : ℕ → Server → Call → Server × Result
unfolding set_new_invoke_context set_reply_stream send_response_unsafe release
serve max s (reserves id r) = set_new_invoke_context id r s
serve max s (invokes w direct) = set_reply_stream w direct s
serve max s (replies id d called) = of_sent (send_response_unsafe max id d called s)
serve max s releases = release s

abbrev IsError : Result → Type 0
IsError (error _) = Unit {0}
IsError _ = ⊥

-- A reply to the invoke under way may fail before it is delivered, and leaves it open then.
abbrev ReplyTo : String → String → Phase → Result → Type 0
ReplyTo id j p' x =
    ((id ≡ j) × (p' ≡ replied j))
    ⊎ ((id ≡ j) × (p' ≡ invoking j) × IsError x)
    ⊎ ((id ≢ j) × (p' ≡ invoking j) × (x ≡ error invalid_invoke_id))

-- What is refused: the phase stays, with the error.
abbrev Refuses : ServerError → Phase → Phase → Result → Type 0
Refuses e p p' x = (p' ≡ p) × (x ≡ error e)

abbrev RefusesReply : String → String → ServerError → Phase → Phase → Result → Type 0
RefusesReply id j e p p' x =
    ((id ≡ j) × Refuses e p p' x) ⊎ ((id ≢ j) × Refuses invalid_invoke_id p p' x)

-- The automaton: from a phase a call may lead to a phase and a result.
abbrev pub Spec : Phase → Call → Phase → Result → Type 0
Spec free (reserves id r) p' x = (p' ≡ reserved id) × (x ≡ ok)
Spec p (reserves id r) p' x = Refuses already_reserved p p' x
Spec free (invokes w direct) p' x = Refuses not_reserved free p' x
Spec (reserved j) (invokes w direct) p' x = (p' ≡ invoking j) × (x ≡ ok)
Spec (invoking j) (invokes w direct) p' x = Refuses already_invocating (invoking j) p' x
Spec (replied j) (invokes w direct) p' x = Refuses already_replied (replied j) p' x
Spec free (replies id d called) p' x = Refuses invalid_invoke_id free p' x
Spec (reserved j) (replies id d called) p' x =
    RefusesReply id j reply_stream_not_available (reserved j) p' x
Spec (invoking j) (replies id d called) p' x = ReplyTo id j p' x
Spec (replied j) (replies id d called) p' x = RefusesReply id j response_sent (replied j) p' x
Spec free releases p' x = Refuses not_reserved free p' x
Spec p releases p' x = (p' ≡ free) × (x ≡ ok)

replies-Spec :
    (max : ℕ) (s : Server) (id : String) (d : Delivery) (called : Bool) (o : Option InvokeContext)
    → s.invoke_ctx ≡ o
    → let r = send_response_unsafe max id d called s in
      Spec (phase s) (replies id d called) (phase r.server) r.result
unfolding send_response_unsafe
replies-Spec max s id d called none e = ground arith
replies-Spec max s id d called (some c) e = ground (arith, eq_iff id c.token.invoke_id)

-- The server refines the automaton: whatever it is in, and whatever becomes of a reply outside, each
-- of these calls changes the phase of the reservation and answers as the automaton may.
pub serve-Spec :
    (max : ℕ) (s : Server) (c : Call) → Spec (phase s) c (phase (serve max s c).0) (serve max s c).1
unfolding serve
serve-Spec max s (reserves id r) = ground arith
serve-Spec max s (invokes w direct) = ground arith
serve-Spec max s (replies id d called) = replies-Spec max s id d called s.invoke_ctx refl
serve-Spec max s releases = ground arith
