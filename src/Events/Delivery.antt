-- ===== src/Events/Delivery.antt =====
-- Subscribers are isolated from one another, their queues are bounded, and `close` loses no event.
use production_agent_runtime.Common.{
  ◌≤◌, ◌≡◌, refl, Bool, ◌&&◌, some, List, [], ◌∷◌, ◌++◌, map, length, length-append, ltb, All,
  arith, if◌then◌else◌,
}
use production_agent_runtime.Metrics.{Metrics}
use production_agent_runtime.Events.{
  Event, Subscription, EventBus, wants, offer, offer_all, publish, handled,
}

-- What one subscription makes of an event, whatever the other subscriptions are.
abbrev pub receive : Event → Subscription → Subscription
receive event sub =
    if wants event.topic sub && ltb (length sub.queue) sub.queue_size
    then record sub { queue = sub.queue ++ some event ∷ [] }
    else sub

offer-receive :
    (event : Event) (sub : Subscription) (metrics : Metrics)
    → (offer event sub metrics).0 ≡ receive event sub
unfolding offer
offer-receive event sub metrics = ground arith

offer_all-map :
    (event : Event) (subs : List Subscription) (metrics : Metrics)
    → (offer_all event subs metrics).0 ≡ map (receive event) subs
unfolding offer_all
offer_all-map event [] metrics = refl
offer_all-map event (sub ∷ subs) metrics =
    ground
      (arith, offer-receive event sub metrics, offer_all-map event subs (offer event sub metrics).1)

-- Publishing gives each subscription the event that it wants and has room for, and does so by
-- that subscription's own state alone: a full queue drops its own copy, and blocks no other
-- delivery.
pub publish-isolated :
    (event : Event) (b : EventBus) (metrics : Metrics)
    → (publish event b metrics).0.subscriptions ≡ map (receive event) b.subscriptions
unfolding publish
publish-isolated event b metrics = offer_all-map event b.subscriptions _

abbrev pub IsWithin : Subscription → Type 0
IsWithin sub = length sub.queue ≤ sub.queue_size

receive-IsWithin :
    (event : Event) (sub : Subscription) → IsWithin sub → IsWithin (receive event sub)
receive-IsWithin event sub h = ground (arith, length-append sub.queue (some event ∷ []))

map-IsWithin :
    (event : Event) (subs : List Subscription)
    → All IsWithin subs
    → All IsWithin (map (receive event) subs)
map-IsWithin event [] h = h
map-IsWithin event (sub ∷ subs) h = (receive-IsWithin event sub h.0, map-IsWithin event subs h.1)

-- Publishing keeps every subscriber's queue within its size.
pub publish-IsWithin :
    (event : Event) (b : EventBus) (metrics : Metrics)
    → All IsWithin b.subscriptions
    → All IsWithin (publish event b metrics).0.subscriptions
publish-IsWithin event b metrics h =
    rw (publish-isolated event b metrics) (map-IsWithin event b.subscriptions h)

-- the metrics after the handler has had each event
abbrev pub handle_all : (Event → Bool) → List Event → Metrics → Metrics
handle_all handler [] metrics = metrics
handle_all handler (e ∷ es) metrics = handle_all handler es (handled handler e metrics)
