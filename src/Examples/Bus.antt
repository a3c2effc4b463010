-- ===== src/Examples/Bus.antt =====
-- The event bus and the state machine on concrete inputs.
use production_agent_runtime.Common.{◌≡◌, ◌↔◌, true, false, none, some, [], ◌∷◌, map, take_last}
use production_agent_runtime.Models.{created, ready, running, simple, RunRecord}
use production_agent_runtime.Events.{Event, Subscription, EventBus, publish}
use production_agent_runtime.Events.Audit.{record_all, record_all_lem}
use production_agent_runtime.Events.Delivery.{receive, publish-isolated}
use production_agent_runtime.Fsm.{can_transition}
use production_agent_runtime.Fsm.Legal.{Legal, can_transition-iff-Legal}

abbrev event : Event
event = record {
  id = 101 ∷ [];
  topic = 116 ∷ [];
  trace_id = 99 ∷ [];
  agent_id = 97 ∷ [];
  timestamp = 4;
  payload = [];
}

abbrev subscription : Subscription
subscription = record {
  topic = 116 ∷ [];
  handler = λ e. true;
  queue = some event ∷ [];
  queue_size = 1;
  workers = 1;
  tasks = 1;
}

abbrev bus : EventBus
bus = record {
  audit = record { capacity = 2; events = [] };
  subscriptions = subscription ∷ record subscription { queue_size = 3 } ∷ [];
  started = true;
}

publish-isolated_example :
    (publish event bus []).0.subscriptions ≡ map (receive event) bus.subscriptions
publish-isolated_example = publish-isolated event bus []

record_all_lem_example :
    (record_all (event ∷ event ∷ event ∷ []) (record { capacity = 2; events = [] })).events
    ≡ take_last 2 (event ∷ event ∷ event ∷ [])
record_all_lem_example = record_all_lem 2 (event ∷ event ∷ event ∷ [])

can_transition-iff-Legal_example : (can_transition ready running ≡ true) ↔ Legal ready running
can_transition-iff-Legal_example = can_transition-iff-Legal ready running

abbrev new : RunRecord
new = record {
  id = 114 ∷ [];
  input = 104 ∷ [];
  kind = simple;
  session_id = 115 ∷ [];
  trace_id = 116 ∷ [];
  state = created;
  output = none;
  error = none;
  created_at = 1;
  updated_at = 2;
  started_at = none;
  finished_at = none;
  transitions = [];
  steps = [];
  cancel_requested = false;
}
