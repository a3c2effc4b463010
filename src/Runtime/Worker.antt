-- ===== src/Runtime/Worker.antt =====
-- `_worker_loop` of runtime.py: a worker takes a task, starts its run, and waits for its end.
use production_agent_runtime.Common.{Bool, true, false, Option, none, some, [], ◌∷◌, ◌++◌, Text}
use production_agent_runtime.Common.Exec.{Exec, Result, pure, modify, ◌>>=◌, ◌>>◌}
use production_agent_runtime.Models.{is_terminal}
use production_agent_runtime.Adapters.Queue
use production_agent_runtime.Adapters.Queue.{RunTask, TaskQueue}
use production_agent_runtime.Runtime.State.{Runtime, load, update_registry_metrics, contains}
use production_agent_runtime.Runtime.Registry.{without}

abbrev take_task : Option RunTask × TaskQueue → Runtime → Option RunTask × Runtime
take_task (task, queue) s = (task, record s { queue = queue })

abbrev pub stale_if : Bool → Text → Exec Runtime Bool
stale_if false id = pure true
stale_if true id = do run ← load id; pure (is_terminal run.state)

-- the worker's test of a dequeued run; `_runs.get` and the state
unfoldable pub is_stale : Text → Exec Runtime Bool
is_stale id s = stale_if (contains s.runs id) id s

abbrev with_queue : Result (Unit {0}) × TaskQueue → Runtime → Result (Unit {0}) × Runtime
with_queue (r, queue) s = (r, record s { queue = queue })

-- the outer `finally` of `_worker_loop`
unfoldable pub task_done : Exec Runtime Unit
task_done = do λ s. with_queue (Queue.task_done s.queue) s; update_registry_metrics

-- create_task(self._execute(run)), entered in `_tasks`
unfoldable pub dispatch : Text → Bool → Exec Runtime Unit
dispatch id true = task_done
dispatch id false = modify λ s. record s { tasks = s.tasks ++ id ∷ [] }

unfoldable pub work_on : Option RunTask → Exec Runtime Unit
work_on none = pure tt
work_on (some task) = do stale ← is_stale task.run_id; dispatch task.run_id stale

-- a worker takes a task, and drops it or starts the run
unfoldable pub worker_take : Exec Runtime Unit
worker_take s = let (task, s') = take_task (Queue.get s.queue) s in work_on task s'

-- the worker behind the end of its run's task
unfoldable pub worker_release : Text → Exec Runtime Unit
worker_release id = do modify λ s. record s { tasks = without id s.tasks }; task_done
