-- ===== src/Runtime/Refinement.antt =====
-- An execution is a sequence of the event loop's steps.
use production_agent_runtime.Common.{ℕ, ◌≡◌, List, [], ◌∷◌, ◌++◌, Text}
use production_agent_runtime.Common.Dict
use production_agent_runtime.Common.Exec.{Exec, Result}
use production_agent_runtime.Common.Exec.Keeps.{Keeps}
use production_agent_runtime.Runtime.State.{Runtime}
use production_agent_runtime.Runtime.Steps.{Action, begins, finishes, run_actions}
use production_agent_runtime.Runtime.Execution.{Execution}

-- some actions lead from `start` to here
record Reaches (start : Runtime) (e : Execution) : Type 0 where
  actions : List Action
  reached : run_actions actions start ≡ e.engine

-- How an execution of the run gets the engine from one state to another: by the step that begins it
-- alone, if nothing is left to do, or by that step, some steps, and the step that finishes the run.
pub data IsExecution (id : Text) (start end : Runtime) : Type 0 where
  skipped : end ≡ run_actions (begins id ∷ []) start → IsExecution id start end
  executed :
      (middle : List Action) (started : ℕ) (answer : Result Text)
      → end ≡ run_actions (begins id ∷ (middle ++ finishes id started answer ∷ [])) start
      → IsExecution id start end
