-- ===== src/Core/InternalAgent/Register.antt =====
-- Registration of an internal extension with its events.
use lambda_runtime_init.Base.{ℕ, ◌≡◌, refl, ◌||◌, none, some, List, [], ◌∷◌, ◌++◌, arith}
use lambda_runtime_init.Core.Error.{
  Error, invalid_event_type, event_not_supported_for_internal_agent,
}
use lambda_runtime_init.Core.Thread.{Object, returned}
use lambda_runtime_init.Core.Agent.Events.{has_event-append}
use lambda_runtime_init.Core.Agent.{
  Event, invoke_event, shutdown_event, other_event, same_event, has_event, add_event,
}
use lambda_runtime_init.Core.InternalAgent.{
  started, registered, InternalAgent, subscribe_all, subscribe_unsafe,
}
use lambda_runtime_init.Core.InternalAgent.Methods.{registers, call, is_subscribed}

-- The one event that an internal extension may subscribe to.
abbrev pub IsKnown : Event → Type 0
IsKnown invoke_event = Unit {0}
IsKnown _ = ⊥

-- Why any other event is refused.
abbrev pub refusal : Event → Error
refusal shutdown_event = event_not_supported_for_internal_agent
refusal _ = invalid_event_type

abbrev pub AllKnown : List Event → Type 0
AllKnown [] = Unit {0}
AllKnown (e ∷ es) = IsKnown e × AllKnown es

has_event-add_event :
    (xs : List Event) (e f : Event)
    → IsKnown e
    → has_event (add_event xs e) f ≡ (has_event xs f || same_event e f)
unfolding add_event
has_event-add_event xs invoke_event invoke_event k =
    ground (arith, has_event-append xs invoke_event invoke_event)
has_event-add_event xs invoke_event f k = ground (arith, has_event-append xs invoke_event f)
has_event-add_event xs shutdown_event f k = elim k [ ]
has_event-add_event xs (other_event s) f k = elim k [ ]

subscribe_all-cons :
    (e : Event) (es : List Event) (a : InternalAgent)
    → IsKnown e
    → subscribe_all (e ∷ es) a ≡ subscribe_all es (record a { events = add_event a.events e })
unfolding subscribe_all subscribe_unsafe
subscribe_all-cons invoke_event es a k = refl
subscribe_all-cons shutdown_event es a k = elim k [ ]
subscribe_all-cons (other_event s) es a k = elim k [ ]

-- What a list of events adds to the subscriptions of an agent.
subscribe_all-known :
    (es : List Event) (a : InternalAgent) (f : Event)
    → AllKnown es
    → ((subscribe_all es a).1 ≡ none)
      × ((subscribe_all es a).0.current_state ≡ a.current_state)
      × (has_event (subscribe_all es a).0.events f ≡ (has_event a.events f || has_event es f))
unfolding has_event
subscribe_all-known [] a f k = unfold subscribe_all in (refl, refl, ground arith)
subscribe_all-known (e ∷ es) a f k = rw (subscribe_all-cons e es a k.0) (
    ground (
      arith,
      subscribe_all-known es (record a { events = add_event a.events e }) f k.1,
      has_event-add_event a.events e f k.0,
    ))

-- The loop stops at the first unknown event, and has subscribed to those before it.
subscribe_all-unknown :
    (es : List Event) (bad : Event) (rest : List Event) (a : InternalAgent)
    → AllKnown es
    → ¬ IsKnown bad
    → subscribe_all (es ++ bad ∷ rest) a ≡ ((subscribe_all es a).0, some (refusal bad))
subscribe_all-unknown [] invoke_event rest a k u = absurd (u tt)
subscribe_all-unknown [] shutdown_event rest a k u = unfold subscribe_all subscribe_unsafe in refl
subscribe_all-unknown [] (other_event t) rest a k u = unfold subscribe_all subscribe_unsafe in refl
subscribe_all-unknown (e ∷ es) bad rest a k u =
    rw (subscribe_all-cons e (es ++ bad ∷ rest) a k.0, subscribe_all-cons e es a k.0)
      (subscribe_all-unknown es bad rest (record a { events = add_event a.events e }) k.1 u)

-- A started internal extension that registers with known events gets nil, is registered, and is
-- subscribed to exactly those events and those that it had; no gate is passed.
pub register_internal-known :
    (es : List Event) (now later : ℕ) (o : Object InternalAgent) (f : Event)
    → o.self.current_state ≡ started
    → AllKnown es
    → let r = call (registers es) now later o in
      (r.1 ≡ returned none)
      × (r.0.self.current_state ≡ registered)
      × (r.0.init_flow ≡ o.init_flow)
      × (is_subscribed r.0.self f ≡ (is_subscribed o.self f || has_event es f))
unfolding call is_subscribed
register_internal-known es now later o f st k = ground (arith, subscribe_all-known es o.self f k)

-- Any other event than INVOKE among them is refused, SHUTDOWN with an error of its own: the
-- extension is not registered, and keeps the subscriptions to the events before the refused one.
pub register_internal-unknown :
    (es rest : List Event) (bad : Event) (now later : ℕ) (o : Object InternalAgent) (f : Event)
    → o.self.current_state ≡ started
    → AllKnown es
    → ¬ IsKnown bad
    → let r = call (registers (es ++ bad ∷ rest)) now later o in
      (r.1 ≡ returned (some (refusal bad)))
      × (r.0.self.current_state ≡ started)
      × (r.0.init_flow ≡ o.init_flow)
      × (is_subscribed r.0.self f ≡ (is_subscribed o.self f || has_event es f))
unfolding call is_subscribed
register_internal-unknown es rest bad now later o f st k u =
    ground (arith, subscribe_all-known es o.self f k, subscribe_all-unknown es bad rest o.self k u)
