-- ===== src/Adapters/Checkpoints.antt =====
-- InMemoryCheckpointStore of adapters/memory.py, and Checkpoint of ports.py. The state of a
-- checkpoint is of any type; the store keeps copies, which are values here.
pub mod Monotone
use production_agent_runtime.Common.{
  ℕ, ◌≤◌, ◌≡◌, refl, Bool, true, false, ◌||◌, Option, none, some, List, [], ◌∷◌, Text, text,
  text_eq, text_eq_refl, text_eq_iff, is_blank, ltb, leb, if◌then◌else◌, arith,
}
use production_agent_runtime.Common.Dict
use production_agent_runtime.Common.Dict.{Dict, get-put}
use production_agent_runtime.Common.Int.{ℤ, pos, ltb_ℤ}
use production_agent_runtime.Common.Exec.{Exec, Result, ok, err, value_error}
use production_agent_runtime.Models.{is_negative}

module _ (State : Type 0) where
  pub record Checkpoint : Type 0 where
    pub run_id : Text
    pub step : ℕ
    pub state : State
    pub updated_at : ℕ

  -- Checkpoint(run_id, step, state, updated_at), with `__post_init__`
  unfoldable pub new_checkpoint : Text → ℤ → State → ℕ → Result Checkpoint
  new_checkpoint run_id (pos step) state updated_at =
      if is_blank run_id
      then err (value_error (text "checkpoint requires a run id and a non-negative step"))
      else ok (record { run_id = run_id; step = step; state = state; updated_at = updated_at })
  new_checkpoint run_id step state updated_at =
      err (value_error (text "checkpoint requires a run id and a non-negative step"))

  abbrev pub Checkpoints : Type 0
  Checkpoints = Dict Checkpoint

  abbrev pub moves_back : Checkpoint → Option Checkpoint → Bool
  moves_back checkpoint none = false
  moves_back checkpoint (some previous) = ltb checkpoint.step previous.step

  unfoldable pub save : Checkpoint → Exec Checkpoints Unit
  save checkpoint store =
      if moves_back checkpoint (Dict.get store checkpoint.run_id)
      then (err (value_error (text "checkpoint step cannot move backwards")), store)
      else (ok tt, Dict.put store checkpoint.run_id checkpoint)

  unfoldable pub load : Text → Checkpoints → Option Checkpoint
  load run_id store = Dict.get store run_id

  unfoldable pub delete : Text → Checkpoints → Checkpoints
  delete run_id store = Dict.remove store run_id
