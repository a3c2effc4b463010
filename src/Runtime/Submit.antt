-- ===== src/Runtime/Submit.antt =====
-- `start` and `submit` of runtime.py. Nothing on the path of `submit` suspends while its locks are
-- free, so a submission is one step of the event loop.
use production_agent_runtime.Common.{
  Bool, true, false, ◌||◌, ◌&&◌, not, Option, none, some, [], ◌∷◌, ◌++◌, Text, text, text_eq, strip,
  is_blank, length, ltb, if◌then◌else◌,
}
use production_agent_runtime.Common.Dict
use production_agent_runtime.Common.Dict.{Dict}
use production_agent_runtime.Common.Int.{pos_part}
use production_agent_runtime.Common.Exec.{
  Exec, Result, ok, pure, raise, gets, modify, refuse_if, ◌>>=◌, ◌>>◌, runtime_error, value_error,
  idempotency_conflict_error, run_queue_full_error,
}
use production_agent_runtime.Models.{AgentKind, RunRecord, ready, kind_value, kind_eq, new_run}
use production_agent_runtime.Events
use production_agent_runtime.Events.{str}
use production_agent_runtime.Fsm
use production_agent_runtime.Adapters.Queue
use production_agent_runtime.Adapters.Queue.{RunTask, TaskQueue}
use production_agent_runtime.Runtime.State.{
  Runtime, Indexed, time, uuid4, store, increment, set_gauge, emit, fsm, update_registry_metrics,
  contains,
}
use production_agent_runtime.Runtime.Registry.{cleanup_runs}

-- the start of the event bus and the workers, which wait at the queue from then on
unfoldable pub launch : Exec Runtime Unit
launch = do
  limit ← gets (λ s. pos_part s.config.max_concurrency)
  modify λ s. record s { events = Events.start s.events; workers = limit }
  set_gauge (text "runtime_concurrency_limit") limit
  capacity ← gets (λ s. s.queue.capacity)
  set_gauge (text "run_queue_capacity") capacity
  modify λ s. record s { started = true }

-- by `_closed` and `_started`
unfoldable pub start_if : Bool → Bool → Exec Runtime Unit
start_if true started = raise (runtime_error (text "runtime has been closed"))
start_if false true = pure tt
start_if false false = launch

-- `start`, with the lifecycle lock free
unfoldable pub start : Exec Runtime Unit
start s = start_if s.closed s.started s

abbrev pub option_eq : Option Text → Option Text → Bool
option_eq none none = true
option_eq none (some b) = false
option_eq (some a) none = false
option_eq (some a) (some b) = text_eq a b

-- whether an indexed request is the one that is made now
unfoldable pub same_request : Indexed → Text → AgentKind → Option Text → Bool
same_request e input kind session_id =
    text_eq input e.input && kind_eq kind e.kind && option_eq session_id e.session_id

-- an indexed run that is still registered is returned if the request is the same
unfoldable pub replay_indexed :
    Bool → Text → Indexed → Text → AgentKind → Option Text → Exec Runtime (Option Text)
replay_indexed true key e input kind session_id = do
  refuse_if (not (same_request e input kind session_id)) (
      idempotency_conflict_error (text "idempotency key was already used with a different request"))
  increment (text "idempotency_replays_total")
  pure (some e.run_id)
replay_indexed false key e input kind session_id = do
  modify λ s. record s { idempotency_index = Dict.remove s.idempotency_index key }
  pure none

unfoldable pub replay_entry :
    Text → Option Indexed → Text → AgentKind → Option Text → Exec Runtime (Option Text)
replay_entry key none input kind session_id s = (ok none, s)
replay_entry key (some e) input kind session_id s =
    replay_indexed (contains s.runs e.run_id) key e input kind session_id s

-- the run that an earlier submission under the same key made, if it is still registered
unfoldable pub replay : Option Text → Text → AgentKind → Option Text → Exec Runtime (Option Text)
replay none input kind session_id s = (ok none, s)
replay (some key) input kind session_id s =
    replay_entry key (Dict.get s.idempotency_index key) input kind session_id s

unfoldable pub refuse_full : Bool → Exec Runtime Unit
refuse_full false = pure tt
refuse_full true = do
  increment (text "run_submissions_rejected_total")
  retry_after ← gets (λ s. pos_part s.config.queue_retry_after)
  raise (run_queue_full_error retry_after)

-- if self._queue.full(): …
unfoldable pub refuse_if_full : Exec Runtime Unit
refuse_if_full s = refuse_full (Queue.full s.queue) s

-- `session_id or uuid.uuid4().hex`
unfoldable pub choose_session : Option Text → Exec Runtime Text
choose_session none = uuid4
choose_session (some id) = if is_blank id then uuid4 else pure id

unfoldable pub lift {ℓ} : {A : Type ℓ} → Result A → {S : Type ℓ} → Exec S A
lift r s = (r, s)

abbrev pub index_key : Option Text → Indexed → Dict Indexed → Dict Indexed
index_key none e index = index
index_key (some key) e index = Dict.put index key e

abbrev pub key_of_run : Option Text → Text → Dict Text → Dict Text
key_of_run none id keys = keys
key_of_run (some key) id keys = Dict.put keys id key

-- self._runs[run_id] = run, its completion event, and the entries of its key
unfoldable pub register : RunRecord → Option Text → Option Text → Exec Runtime Unit
register run session_id key = do
  store run
  modify λ s. record s {
    runs = s.runs ++ run.id ∷ [];
    completion = Dict.put s.completion run.id false;
    idempotency_index =
        index_key key
          (record { run_id = run.id; input = run.input; kind = run.kind; session_id = session_id })
          s.idempotency_index;
    idempotency_by_run = key_of_run key run.id s.idempotency_by_run;
  }

abbrev pub put_result : Result (Unit {0}) × TaskQueue → Runtime → Result (Unit {0}) × Runtime
put_result (r, queue) s = (r, record s { queue = queue })

unfoldable pub put_task : RunTask → Exec Runtime Unit
put_task task s = put_result (Queue.put_nowait task s.queue) s

-- self._queue.put_nowait(RunTask(run.id))
unfoldable pub enqueue : Text → Exec Runtime Unit
enqueue id = do now ← time; task ← lift (Queue.new_task id 1 now); put_task task

-- the new run of `submit`
unfoldable pub create : Text → AgentKind → Option Text → Exec Runtime RunRecord
create input kind session_id = do
  run_id ← uuid4
  session ← choose_session session_id
  trace_id ← uuid4
  created_at ← time
  updated_at ← time
  lift (new_run run_id input kind session trace_id created_at updated_at)

-- `submit` behind the creation of the run
unfoldable pub admit_run : Option Text → Option Text → RunRecord → Exec Runtime Text
admit_run session_id key run = do
  register run session_id key
  increment (text "runs_submitted_total")
  emit (text "run.created") run.trace_id run.id
      ((text "kind", str (kind_value run.kind)) ∷ (text "session_id", str run.session_id) ∷ [])
  Fsm.transition fsm run.id ready (text "accepted")
  enqueue run.id
  update_registry_metrics
  pure run.id

-- `submit` from the test of the queue on
unfoldable pub accept : Text → AgentKind → Option Text → Option Text → Exec Runtime Text
accept input kind session_id key = do
  refuse_if_full
  run ← create input kind session_id
  admit_run session_id key run

abbrev pub is_bad_key : Option Text → Bool
is_bad_key none = false
is_bad_key (some key) = is_blank key || ltb 128 (length key)

abbrev pub replay_or_accept :
    Text → AgentKind → Option Text → Option Text → Option Text → Exec Runtime Text
replay_or_accept input kind session_id key (some id) = pure id
replay_or_accept input kind session_id key none = accept input kind session_id key

-- `submit`: the identifier of the run that is returned
unfoldable pub submit : Text → AgentKind → Option Text → Option Text → Exec Runtime Text
submit input_text kind session_id key = do
  let input = strip input_text
  refuse_if (is_blank input) (value_error (text "run input must not be empty"))
  start
  refuse_if (is_bad_key key) (value_error (text "idempotency key must contain 1 to 128 characters"))
  cleanup_runs 1
  earlier ← replay key input kind session_id
  replay_or_accept input kind session_id key earlier
