-- ===== src/Runtime/Eviction.antt =====
-- What follows when `_cleanup_runs` evicts a cancelled run whose task has not ended yet.
use production_agent_runtime.Common.{◌≡◌, refl, some, Text, text_eq_refl}
use production_agent_runtime.Common.Dict
use production_agent_runtime.Common.Dict.{get-remove}
use production_agent_runtime.Common.Exec.{err, ◌>>=◌, cancelled_error, key_error}
use production_agent_runtime.Models.{RunRecord, cancelled}
use production_agent_runtime.Fsm
use production_agent_runtime.Fsm.{can_transition}
use production_agent_runtime.Runtime.State.{
  Runtime, load, increment, increment_by, set_completion, fsm, lock_for,
}
use production_agent_runtime.Runtime.Registry.{evict}
use production_agent_runtime.Runtime.Execute.{settle, handle, conclude, signal_if}

-- When the task of a cancelled run ends by that cancellation after the run has been evicted,
-- `_execute` raises KeyError from its `finally`: the completion event is gone.
pub settle-evict :
    (s : Runtime) (id : Text) (run : RunRecord)
    → Dict.get s.objects id ≡ some run
    → run.state ≡ cancelled
    → (settle id (err cancelled_error) (evict id s).1).0 ≡ err (key_error id)
unfolding settle handle conclude signal_if set_completion evict increment increment_by load fsm
    lock_for Fsm.transition_if_allowed can_transition ◌>>=◌
settle-evict s id run at is_cancelled =
    rw at (rw is_cancelled (rw at (rw is_cancelled (rw get-remove (rw (text_eq_refl id) refl)))))
