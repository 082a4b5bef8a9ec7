-- ===== src/Core/ExternalAgent/Register.antt =====
-- Registration of an external extension with its events.
use lambda_runtime_init.Base.{
  ℕ, ◌≡◌, refl, Bool, ◌||◌, none, some, List, [], ◌∷◌, ◌++◌, String, arith,
}
use lambda_runtime_init.Core.Error.{Error, invalid_event_type}
use lambda_runtime_init.Core.InitFlow
use lambda_runtime_init.Core.Thread.{Object, returned}
use lambda_runtime_init.Core.Agent.Events.{has_event-append}
use lambda_runtime_init.Core.Agent.{
  Event, invoke_event, shutdown_event, other_event, same_event, has_event, add_event,
}
use lambda_runtime_init.Core.ExternalAgent.{
  started, registered, ExternalAgent, subscribe_all, subscribe_unsafe,
}
use lambda_runtime_init.Core.ExternalAgent.Methods.{registers, call, is_subscribed}

-- The events that an external extension may subscribe to.
abbrev pub IsKnown : Event → Type 0
IsKnown (other_event _) = ⊥
IsKnown _ = Unit {0}

abbrev pub AllKnown : List Event → Type 0
AllKnown [] = Unit {0}
AllKnown (e ∷ es) = IsKnown e × AllKnown es

has_event-add_event :
    (xs : List Event) (e f : Event)
    → IsKnown e
    → has_event (add_event xs e) f ≡ (has_event xs f || same_event e f)
unfolding add_event
has_event-add_event xs invoke_event invoke_event k =
    ground (arith, has_event-append xs invoke_event invoke_event)
has_event-add_event xs invoke_event f k = ground (arith, has_event-append xs invoke_event f)
has_event-add_event xs shutdown_event shutdown_event k =
    ground (arith, has_event-append xs shutdown_event shutdown_event)
has_event-add_event xs shutdown_event f k = ground (arith, has_event-append xs shutdown_event f)
has_event-add_event xs (other_event s) f k = elim k [ ]

subscribe_all-cons :
    (e : Event) (es : List Event) (a : ExternalAgent)
    → IsKnown e
    → subscribe_all (e ∷ es) a ≡ subscribe_all es (record a { events = add_event a.events e })
unfolding subscribe_all subscribe_unsafe
subscribe_all-cons invoke_event es a k = refl
subscribe_all-cons shutdown_event es a k = refl
subscribe_all-cons (other_event s) es a k = elim k [ ]

-- What a list of events adds to the subscriptions of an agent.
subscribe_all-known :
    (es : List Event) (a : ExternalAgent) (f : Event)
    → AllKnown es
    → ((subscribe_all es a).1 ≡ none)
      × ((subscribe_all es a).0.current_state ≡ a.current_state)
      × (has_event (subscribe_all es a).0.events f ≡ (has_event a.events f || has_event es f))
unfolding has_event
subscribe_all-known [] a f k = unfold subscribe_all in (refl, refl, ground arith)
subscribe_all-known (e ∷ es) a f k = rw (subscribe_all-cons e es a k.0) (
    ground (
      arith,
      subscribe_all-known es (record a { events = add_event a.events e }) f k.1,
      has_event-add_event a.events e f k.0,
    ))

-- The loop stops at the first unknown event, and has subscribed to those before it.
subscribe_all-unknown :
    (es : List Event) (t : String) (rest : List Event) (a : ExternalAgent)
    → AllKnown es
    → subscribe_all (es ++ other_event t ∷ rest) a
      ≡ ((subscribe_all es a).0, some invalid_event_type)
subscribe_all-unknown [] t rest a k = unfold subscribe_all subscribe_unsafe in refl
subscribe_all-unknown (e ∷ es) t rest a k =
    rw (subscribe_all-cons e (es ++ other_event t ∷ rest) a k.0, subscribe_all-cons e es a k.0)
      (subscribe_all-unknown es t rest (record a { events = add_event a.events e }) k.1)

-- A started extension that registers with known events gets nil, is registered, has walked through
-- the registration gate, and is subscribed to exactly those events and those that it had.
pub register_external-known :
    (p : Error → Bool) (es : List Event) (now later : ℕ) (o : Object ExternalAgent) (f : Event)
    → o.self.current_state ≡ started
    → AllKnown es
    → let r = call p (registers es) now later o in
      (r.1 ≡ returned none)
      × (r.0.self.current_state ≡ registered)
      × (r.0.init_flow ≡ (InitFlow.external_agent_registered o.init_flow).0)
      × (is_subscribed r.0.self f ≡ (is_subscribed o.self f || has_event es f))
unfolding call is_subscribed
register_external-known p es now later o f st k = ground (arith, subscribe_all-known es o.self f k)

-- An unknown event among them is refused: the extension is not registered and no gate is passed,
-- but it keeps the subscriptions to the events that came before the unknown one.
pub register_external-unknown :
    (p : Error → Bool) (es rest : List Event) (t : String) (now later : ℕ)
    (o : Object ExternalAgent) (f : Event)
    → o.self.current_state ≡ started
    → AllKnown es
    → let r = call p (registers (es ++ other_event t ∷ rest)) now later o in
      (r.1 ≡ returned (some invalid_event_type))
      × (r.0.self.current_state ≡ started)
      × (r.0.init_flow ≡ o.init_flow)
      × (is_subscribed r.0.self f ≡ (is_subscribed o.self f || has_event es f))
unfolding call is_subscribed
register_external-unknown p es rest t now later o f st k =
    ground (arith, subscribe_all-known es o.self f k, subscribe_all-unknown es t rest o.self k)
