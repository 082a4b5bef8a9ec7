-- ===== src/Core/Agent/Events.antt =====
-- The set of events that an extension is subscribed to.
use lambda_runtime_init.Base.{◌≡◌, ◌||◌, List, [], ◌∷◌, ◌++◌, arith}
use lambda_runtime_init.Core.Agent.{Event, same_event, has_event}

pub has_event-append :
    (xs : List Event) (e f : Event)
    → has_event (xs ++ e ∷ []) f ≡ (has_event xs f || same_event e f)
unfolding has_event
has_event-append [] e f = ground arith
has_event-append (x ∷ xs) e f = ground (arith, has_event-append xs e f)
