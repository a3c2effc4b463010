-- ===== src/Events.antt =====
-- src/agent_runtime/events.py: the audit trail and the event bus. The metrics registry is shared
-- with the runtime, so it is an argument and a result. A handler is `Event → Bool`: whether it returns.
pub mod Audit
pub mod Delivery
pub mod Encode
use production_agent_runtime.Common.{
  ℕ, zero, suc, ◌+◌, ◌-◌, Bool, true, false, ◌&&◌, ◌||◌, not, Option, none, some, List, [], ◌∷◌,
  ◌++◌, map, Text, text, text_eq, leb, ltb, length, replicate, keep, deque_append, if◌then◌else◌,
}
use production_agent_runtime.Common.Dict.{Dict}
use production_agent_runtime.Common.Exec.{Exec, Result, ok, err, value_error, runtime_error}
use production_agent_runtime.Metrics.{Metrics, increment}

-- the values of a payload
pub data Value : Type 0 where
  str : Text → Value
  int : ℕ → Value

pub record Event : Type 0 where
  pub id : Text
  pub topic : Text
  pub trace_id : Text
  pub agent_id : Text
  pub timestamp : ℕ
  pub payload : Dict Value

pub record AuditTrail : Type 0 where
  pub capacity : ℕ
  pub events : List Event

unfoldable pub new_trail : ℕ → Result AuditTrail
new_trail capacity =
    if leb capacity 0
    then err (value_error (text "audit capacity must be positive"))
    else ok (record { capacity = capacity; events = [] })

-- AuditTrail.record
unfoldable pub record_event : Event → AuditTrail → AuditTrail
record_event event a = record a { events = deque_append a.capacity a.events event }

abbrev traced : Option Text → Event → Bool
traced none event = true
traced (some trace_id) event = text_eq event.trace_id trace_id

-- AuditTrail.list
unfoldable pub list_events : Option Text → AuditTrail → List Event
list_events trace_id a = keep (traced trace_id) a.events

-- `none` in the queue tells a worker to stop
pub record Subscription : Type 0 where
  pub topic : Text
  pub handler : Event → Bool
  pub queue : List (Option Event)
  pub queue_size : ℕ
  pub workers : ℕ
  pub tasks : ℕ

pub record EventBus : Type 0 where
  pub audit : AuditTrail
  pub subscriptions : List Subscription
  pub started : Bool

unfoldable pub subscribe : Text → (Event → Bool) → ℕ → ℕ → Exec EventBus Unit
subscribe topic handler max_concurrency queue_size b =
    if b.started
    then (err (runtime_error (text "subscriptions must be registered before EventBus.start")), b)
    else if leb max_concurrency 0 || leb queue_size 0
    then (err (value_error (text "subscription limits must be positive")), b)
    else (
      ok tt,
      record b {
        subscriptions =
            b.subscriptions
            ++ record {
              topic = topic;
              handler = handler;
              queue = [];
              queue_size = queue_size;
              workers = max_concurrency;
              tasks = 0;
            }
              ∷ [];
      },
    )

abbrev start_workers : Subscription → Subscription
start_workers sub = record sub { tasks = sub.workers }

-- EventBus.start
unfoldable pub start : EventBus → EventBus
start b =
    if b.started
    then b
    else record b { started = true; subscriptions = map start_workers b.subscriptions }

unfoldable pub wants : Text → Subscription → Bool
wants topic sub = text_eq sub.topic topic || text_eq sub.topic (text "*")

-- queue.put_nowait(event), QueueFull excepted
unfoldable pub offer : Event → Subscription → Metrics → Subscription × Metrics
unfolding wants
offer event sub metrics =
    if not (wants event.topic sub)
    then (sub, metrics)
    else if leb sub.queue_size (length sub.queue)
    then (sub, increment (text "event_deliveries_dropped_total") metrics)
    else (record sub { queue = sub.queue ++ some event ∷ [] }, metrics)

-- the loop of `emit` over the subscriptions
unfoldable pub offer_all : Event → List Subscription → Metrics → List Subscription × Metrics
unfolding offer
offer_all event [] metrics = ([], metrics)
offer_all event (sub ∷ subs) metrics =
    let (sub', metrics') = offer event sub metrics in
    let (subs', metrics'') = offer_all event subs metrics' in (sub' ∷ subs', metrics'')

-- EventBus.emit, once the event has been made
unfoldable pub publish : Event → EventBus → Metrics → EventBus × Metrics
unfolding record_event offer_all
publish event b metrics =
    let counted = increment (text "events_published_total") metrics in
    let (subs, metrics') = offer_all event b.subscriptions counted in
    (record b { audit = record_event event b.audit; subscriptions = subs }, metrics')

-- the metric that a round of `_worker` counts, for a handler that returns or raises
unfoldable pub handled : (Event → Bool) → Event → Metrics → Metrics
handled handler event metrics =
    if handler event
    then increment (text "event_deliveries_total") metrics
    else increment (text "event_handler_errors_total") metrics

abbrev take_one : Subscription → List (Option Event) → Metrics → Subscription × Metrics
take_one sub [] metrics = (sub, metrics)
take_one sub (none ∷ rest) metrics = (record sub { queue = rest; tasks = sub.tasks - 1 }, metrics)
take_one sub (some event ∷ rest) metrics =
    (record sub { queue = rest }, handled sub.handler event metrics)

-- one round of `_worker`, by any of the subscription's running tasks: the head of the queue is
-- handled, or stops the task; with an empty queue, or with no task left, nothing happens
unfoldable pub work : Subscription → Metrics → Subscription × Metrics
unfolding handled
work sub metrics = if leb sub.tasks 0 then (sub, metrics) else take_one sub sub.queue metrics

unfoldable pub work_rounds : ℕ → Subscription → Metrics → Subscription × Metrics
unfolding work
work_rounds zero sub metrics = (sub, metrics)
work_rounds (suc n) sub metrics =
    let (sub', metrics') = work sub metrics in work_rounds n sub' metrics'

-- `close` on one subscription: a stop for each task, and then the tasks run out. `put` waits while
-- the queue is full, so the stops come behind the queued events in any case.
unfoldable pub close_subscription : Subscription → Metrics → Subscription × Metrics
unfolding work_rounds
close_subscription sub metrics =
    let stopping = record sub { queue = sub.queue ++ replicate sub.tasks none } in
    work_rounds (length stopping.queue) stopping metrics

unfoldable pub close_all : List Subscription → Metrics → List Subscription × Metrics
unfolding close_subscription
close_all [] metrics = ([], metrics)
close_all (sub ∷ subs) metrics =
    let (sub', metrics') = close_subscription sub metrics in
    let (subs', metrics'') = close_all subs metrics' in (sub' ∷ subs', metrics'')

-- EventBus.close
unfoldable pub close : EventBus → Metrics → EventBus × Metrics
unfolding close_all
close b metrics =
    if not b.started
    then (b, metrics)
    else let (subs, metrics') = close_all b.subscriptions metrics in
      (record b { subscriptions = subs; started = false }, metrics')
