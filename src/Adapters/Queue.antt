-- ===== src/Adapters/Queue.antt =====
-- InMemoryTaskQueue of adapters/memory.py over asyncio.Queue, and RunTask of ports.py.
use production_agent_runtime.Common.{
  ℕ, ◌+◌, ◌-◌, Bool, ◌||◌, Option, none, some, List, [], ◌∷◌, ◌++◌, Text, text, is_blank, length,
  leb, if◌then◌else◌,
}
use production_agent_runtime.Common.Exec.{Exec, Result, ok, err, value_error, queue_full}

pub record RunTask : Type 0 where
  pub run_id : Text
  pub attempt : ℕ
  pub enqueued_at : ℕ

-- RunTask(run_id, attempt, enqueued_at), with `__post_init__`
unfoldable pub new_task : Text → ℕ → ℕ → Result RunTask
new_task run_id attempt enqueued_at =
    if is_blank run_id || leb attempt 0
    then err (value_error (text "run task requires a run id and a positive attempt"))
    else ok (record { run_id = run_id; attempt = attempt; enqueued_at = enqueued_at })

-- `unfinished` counts the tasks put and not yet reported by `task_done`.
pub record TaskQueue : Type 0 where
  pub capacity : ℕ
  pub items : List RunTask
  pub unfinished : ℕ

unfoldable pub new_queue : ℕ → Result TaskQueue
new_queue capacity =
    if leb capacity 0
    then err (value_error (text "queue capacity must be positive"))
    else ok (record { capacity = capacity; items = []; unfinished = 0 })

unfoldable pub qsize : TaskQueue → ℕ
qsize q = length q.items

unfoldable pub full : TaskQueue → Bool
unfolding qsize
full q = leb q.capacity (qsize q)

unfoldable pub put_nowait : RunTask → Exec TaskQueue Unit
unfolding full
put_nowait task q =
    if full q
    then (err queue_full, q)
    else (ok tt, record q { items = q.items ++ task ∷ []; unfinished = q.unfinished + 1 })

abbrev take_head : List RunTask → TaskQueue → Option RunTask × TaskQueue
take_head [] q = (none, q)
take_head (task ∷ rest) q = (some task, record q { items = rest })

-- `get`; with no item the caller waits, and nothing changes
unfoldable pub get : TaskQueue → Option RunTask × TaskQueue
get q = take_head q.items q

-- asyncio raises ValueError for one `task_done` too many
unfoldable pub task_done : Exec TaskQueue Unit
task_done q =
    if leb q.unfinished 0
    then (err (value_error (text "task_done() called too many times")), q)
    else (ok tt, record q { unfinished = q.unfinished - 1 })
