-- ===== src/Core/DirectInvoke/Accepted.antt =====
-- What an invoke that is accepted has shown.
use lambda_runtime_init.Base.{
  ℕ, ◌≡◌, refl, sym, ap, Bool, Option, none, some, String, arith, Option-cases, inl, inr,
}
use text.Mathlib.TextEquality.{eq_iff}
use lambda_runtime_init.Base.Int.{ℤ, ◌≤ℤ◌, ◌+ℤ◌, wrap64}
use lambda_runtime_init.Core.DirectInvoke.{
  Refusal, Settings, CustomerHeaders, Request, Token, Invoke, World, Part, ◌>>◌, continue,
}
use lambda_runtime_init.Core.DirectInvoke.Receive.{
  receive_headers, check_token, receive_direct_invoke, accepted, refused, finish, load, announce,
  make_invoke,
}

-- What the checks against the token establish.
check_token_lem :
    (r : Request) (t : Token) (now : ℤ) (w : World)
    → (check_token r t now w).1 ≡ none
    → (r.invoke_id ≡ t.invoke_id)
      × (r.reservation_token ≡ t.reservation_token)
      × (r.version_id ≡ t.version_id)
      × (now ≤ℤ t.invack_deadline_ns)
      × ((check_token r t now w).0.settings ≡ w.settings)
unfolding check_token
check_token_lem r t now w h = ground (
  arith,
  eq_iff r.invoke_id t.invoke_id,
  eq_iff r.reservation_token t.reservation_token,
  eq_iff r.version_id t.version_id,
)

continue-none :
    (q : Part) (x : World × Option Refusal)
    → (continue q x).1 ≡ none
    → ((q x.0).1 ≡ none) × ((continue q x).0 ≡ (q x.0).0)
continue-none q (w, none) h = (h, refl)
continue-none q (w, some e) h = cc

finish-accepted :
    (r : Request) (t : Token) (now : ℤ) (c : CustomerHeaders) (x : World × Option Refusal)
    (i : Invoke)
    → (finish r t now c x).1 ≡ accepted i
    → (x.1 ≡ none) × (make_invoke r t now c x.0.settings ≡ i)
finish-accepted r t now c (w, none) i h = (refl, cc)
finish-accepted r t now c (w, some e) i h = cc

-- What a token and the settings say of the invoke that they let through.
abbrev pub Matches : Token → ℤ → Settings → Invoke → Type 0
Matches t now s i =
    (i.id ≡ t.invoke_id)
    × (i.reservation_token ≡ t.reservation_token)
    × (i.version_id ≡ t.version_id)
    × (now ≤ℤ t.invack_deadline_ns)
    × (i.deadline_ns ≡ wrap64 (now +ℤ t.function_timeout))
    × (i.invoke_response_mode ≡ s.invoke_response_mode)

finish-world :
    (r : Request) (t : Token) (now : ℤ) (c : CustomerHeaders) (x : World × Option Refusal)
    → (finish r t now c x).0 ≡ x.0
finish-world r t now c (w, none) = refl
finish-world r t now c (w, some e) = refl

refused-accepted : {e : Refusal} {i : Invoke} → refused e ≡ accepted i → ⊥
refused-accepted h = cc

checked-Matches :
    (p : Part) (r : Request) (t : Token) (now : ℤ) (c : CustomerHeaders) (w : World) (i : Invoke)
    → (finish r t now c ((p >> check_token r t now) w)).1 ≡ accepted i
    → Matches t now (finish r t now c ((p >> check_token r t now) w)).0.settings i
unfolding make_invoke
checked-Matches p r t now c w i h =
    let x : World × Option Refusal = (p >> check_token r t now) w in
    let (n, e) = finish-accepted r t now c x i h in
    let (n', same) = continue-none (check_token r t now) (p w) n in
    let (a, b, d, f, g) = check_token_lem r t now (p w).0 n' in
    rw (sym e) (
      a,
      b,
      d,
      f,
      refl,
      sym (ap (λ (v : World). v.settings.invoke_response_mode) (finish-world r t now c x)),
    )

-- An invoke that is accepted has the ID, the reservation token and the version of its token, came no
-- later than the token allows, and gets the deadline and the response mode that follow.
pub receive-Matches :
    (parse_int : String → Option ℤ) (equal_fold : String → String → Bool)
    (decode : String → Option CustomerHeaders) (m : ℕ) (r : Request) (t : Token) (now : ℤ)
    (w : World) (i : Invoke)
    → (receive_direct_invoke parse_int equal_fold decode m r t now w).1 ≡ accepted i
    → Matches t now (receive_direct_invoke parse_int equal_fold decode m r t now w).0.settings i
unfolding receive_direct_invoke
receive-Matches parse_int equal_fold decode m r t now w i h =
    elim (Option-cases (load decode r.customer_headers)) [
      | inl e ↦ absurd (refused-accepted (rw (e, receive_direct_invoke) at h))
      | inr (c, e) ↦
          rw (e, receive_direct_invoke)
            (checked-Matches (receive_headers parse_int equal_fold decode m r) r t now c
              (record w { response = announce w.response }) i (rw (e, receive_direct_invoke) at h))
    ]
