-- ===== src/Runtime/State.antt =====
-- The state of AgentRuntime (runtime.py) and the actions that its methods are built from. A run is
-- an object, referred to by its identifier: `objects` has all objects ever made, and `runs` the
-- identifiers that `_runs` has, in order of insertion.
use production_agent_runtime.Common.{
  ℕ, ◌+◌, Bool, true, false, Option, none, some, List, [], ◌∷◌, ◌++◌, Text, text, text_eq, length,
  if◌then◌else◌,
}
use production_agent_runtime.Common.Dict
use production_agent_runtime.Common.Dict.{Dict}
use production_agent_runtime.Common.Int.{ℤ}
use production_agent_runtime.Common.Exec.{
  Exec, ok, pure, raise, gets, modify, ◌>>=◌, ◌>>◌, key_error,
}
use production_agent_runtime.Models.{RunState, AgentKind, RunRecord, state_value}
use production_agent_runtime.Metrics
use production_agent_runtime.Metrics.{Metrics}
use production_agent_runtime.Events
use production_agent_runtime.Events.{EventBus, Event, Value, str}
use production_agent_runtime.Sessions.{SessionStore}
use production_agent_runtime.Fsm
use production_agent_runtime.Fsm.{StateMachine, Locks}
use production_agent_runtime.Config.{RuntimeConfig}
use production_agent_runtime.Adapters.Queue.{TaskQueue}
use production_agent_runtime.Adapters.Queue

-- What the n-th reading of a clock shows, and the n-th generated identifier.
pub record World : Type 0 where
  pub time : ℕ → ℕ
  pub perf_counter : ℕ → ℕ
  pub uuid : ℕ → Text

-- an entry of `_idempotency_index`
pub record Indexed : Type 0 where
  pub run_id : Text
  pub input : Text
  pub kind : AgentKind
  pub session_id : Option Text

pub record Runtime : Type 0 where
  pub world : World
  pub times_read : ℕ
  pub perf_read : ℕ
  pub uuids_drawn : ℕ
  pub config : RuntimeConfig
  pub metrics : Metrics
  pub events : EventBus
  pub sessions : SessionStore
  pub locks : Locks
  pub objects : Dict RunRecord
  pub runs : List Text
  pub completion : Dict Bool  -- whether each completion event is set
  pub idempotency_index : Dict Indexed
  pub idempotency_by_run : Dict Text
  pub queue : TaskQueue
  pub workers : ℕ
  pub tasks : List Text  -- the keys of `_tasks`
  pub started : Bool
  pub closed : Bool

-- time.time()
unfoldable pub time : Exec Runtime ℕ
time s = (ok (s.world.time s.times_read), record s { times_read = s.times_read + 1 })

-- time.perf_counter()
unfoldable pub perf_counter : Exec Runtime ℕ
perf_counter s = (ok (s.world.perf_counter s.perf_read), record s { perf_read = s.perf_read + 1 })

-- uuid.uuid4().hex
unfoldable pub uuid4 : Exec Runtime Text
uuid4 s = (ok (s.world.uuid s.uuids_drawn), record s { uuids_drawn = s.uuids_drawn + 1 })

-- the object that an identifier refers to
abbrev pub found : Option RunRecord → Exec Runtime RunRecord
found none = raise (key_error (text "object"))
found (some run) = pure run

unfoldable pub load : Text → Exec Runtime RunRecord
load id s = found (Dict.get s.objects id) s

unfoldable pub store : RunRecord → Exec Runtime Unit
store run = modify λ s. record s { objects = Dict.put s.objects run.id run }

-- change some fields of an object
unfoldable pub update : Text → (RunRecord → RunRecord) → Exec Runtime Unit
update id f = do run ← load id; store (f run)

unfoldable pub increment : Text → Exec Runtime Unit
increment name = modify λ s. record s { metrics = Metrics.increment name s.metrics }

unfoldable pub increment_by : ℤ → Text → Exec Runtime Unit
increment_by value name =
    modify λ s. record s { metrics = Metrics.increment_by value name s.metrics }

unfoldable pub set_gauge : Text → ℕ → Exec Runtime Unit
set_gauge name value = modify λ s. record s { metrics = Metrics.set_gauge name value s.metrics }

unfoldable pub publish : Event → Exec Runtime Unit
publish event = modify λ s.
    let (events, metrics) = Events.publish event s.events s.metrics in
    record s { events = events; metrics = metrics }

-- self.events.emit(topic, trace_id=…, agent_id=…, payload=…)
unfoldable pub emit : Text → Text → Text → Dict Value → Exec Runtime Unit
emit topic trace_id agent_id payload = do
  id ← uuid4
  now ← time
  publish (record {
    id = id;
    topic = topic;
    trace_id = trace_id;
    agent_id = agent_id;
    timestamp = now;
    payload = payload;
  })

-- f"state_transitions_{source.value}_to_{target.value}_total"
unfoldable pub transition_metric : RunState → RunState → Text
transition_metric source target =
    text "state_transitions_"
    ++ (state_value source ++ (text "_to_" ++ (state_value target ++ text "_total")))

-- `_on_transition`
unfoldable pub on_transition : Fsm.Hook Runtime
on_transition run source target reason = do
  increment (transition_metric source target)
  emit (text "run.state_changed") run.trace_id run.id (
      (text "from", str (state_value source))
      ∷ (text "to", str (state_value target))
      ∷ (text "reason", str reason)
      ∷ [])

unfoldable pub lock_for : Text → Exec Runtime Unit
lock_for id = modify λ s. record s { locks = Fsm.lock_for id s.locks }

-- self.fsm
unfoldable pub fsm : StateMachine Runtime
fsm = record {
  hook = some on_transition;
  lock_for = lock_for;
  time = time;
  load = load;
  store = store;
}

-- `_update_registry_metrics`
unfoldable pub update_registry_metrics : Exec Runtime Unit
update_registry_metrics = do
  depth ← gets (λ s. Queue.qsize s.queue)
  set_gauge (text "run_queue_depth") depth
  retained ← gets (λ s. length s.runs)
  set_gauge (text "runs_retained") retained

-- id in self._runs
unfoldable pub contains : List Text → Text → Bool
contains [] id = false
contains (x ∷ xs) id = let rest = contains xs id in if text_eq x id then true else rest

-- self._completion_events[id].set() and .clear()
abbrev pub write_event : Bool → Text → Option Bool → Exec Runtime Unit
write_event value id none = raise (key_error id)
write_event value id (some old) =
    modify λ s. record s { completion = Dict.put s.completion id value }

unfoldable pub set_completion : Bool → Text → Exec Runtime Unit
set_completion value id s = write_event value id (Dict.get s.completion id) s
