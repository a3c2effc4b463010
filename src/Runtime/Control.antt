-- ===== src/Runtime/Control.antt =====
-- `wait`, `cancel`, `retry` and `close` of runtime.py. None of them suspends while its locks are free,
-- apart from the wait for an event in `wait` and the final waits in `close`.
use production_agent_runtime.Common.{
  Bool, true, false, Option, none, some, List, [], ◌∷◌, Text, text, if◌then◌else◌,
}
use production_agent_runtime.Common.Dict
use production_agent_runtime.Common.Exec.{Exec, pure, raise, modify, ◌>>=◌, ◌>>◌, key_error}
use production_agent_runtime.Models.{RunRecord, ready, cancelled, is_terminal}
use production_agent_runtime.Events
use production_agent_runtime.Fsm
use production_agent_runtime.Runtime.State.{
  Runtime, increment, update, load, fsm, set_completion, update_registry_metrics,
}
use production_agent_runtime.Runtime.Registry.{get}
use production_agent_runtime.Runtime.Submit.{refuse_if_full, enqueue}

-- `wait` up to its suspension: the run, and whether it is over
abbrev pub waited : RunRecord → Option Bool → Exec Runtime Bool
waited run none = raise (key_error run.id)
waited run (some is_set) = pure is_set

unfoldable pub wait_for : RunRecord → Text → Exec Runtime Bool
wait_for run id s = waited run (Dict.get s.completion id) s

unfoldable pub wait : Text → Exec Runtime Bool
wait id = do run ← get id; if is_terminal run.state then pure true else wait_for run id

abbrev pub request_cancel : RunRecord → RunRecord
request_cancel run = record run { cancel_requested = true }

-- `cancel` behind the transition. `task.cancel()` makes the run's task raise CancelledError when it
-- goes on: that is a step of the task.
unfoldable pub finish_cancel : Text → Bool → Exec Runtime Bool
finish_cancel id false = pure false
finish_cancel id true = do
  set_completion true id
  increment (text "runs_cancelled_total")
  pure true

unfoldable pub cancel : Text → Exec Runtime Bool
cancel id = do
  run ← get id
  if is_terminal run.state then pure false else do
    update id request_cancel
    done ← Fsm.transition_if_allowed fsm id cancelled (text "cancel requested")
    finish_cancel id done

abbrev pub reset : RunRecord → RunRecord
reset run = record run { error = none; output = none; finished_at = none; cancel_requested = false }

-- the transition of `retry`, and the fields that it clears behind it
unfoldable pub reopen : Text → Exec Runtime Unit
reopen id = do Fsm.transition fsm id ready (text "manual retry"); update id reset

unfoldable pub retry : Text → Exec Runtime Text
retry id = do
  get id
  refuse_if_full
  reopen id
  set_completion false id
  enqueue id
  update_registry_metrics
  increment (text "runs_retried_total")
  pure id

-- the loop of `close` over the runs
unfoldable pub close_run : Text → Exec Runtime Unit
close_run id = do
  run ← load id
  if is_terminal run.state then pure tt else do
    Fsm.transition_if_allowed fsm id cancelled (text "runtime shutdown")
    set_completion true id

unfoldable pub close_runs : List Text → Exec Runtime Unit
close_runs [] = pure tt
close_runs (id ∷ ids) = do close_run id; close_runs ids

unfoldable pub shut_down : Bool → List Text → Exec Runtime Unit
shut_down true ids = pure tt
shut_down false ids = do
  modify λ s. record s { closed = true }
  close_runs ids
  modify λ s. record s { workers = 0 }

-- `close` up to the wait for the cancelled tasks, whose own steps follow
unfoldable pub close : Exec Runtime Unit
close s = shut_down s.closed s.runs s

-- the rest of `close`: the event bus, and the flags
unfoldable pub finish_close : Exec Runtime Unit
finish_close = modify λ s.
    let (events, metrics) = Events.close s.events s.metrics in
    record s { events = events; metrics = metrics; closed = true; started = false }
