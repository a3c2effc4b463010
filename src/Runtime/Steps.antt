-- ===== src/Runtime/Steps.antt =====
-- The event loop: the steps that the runtime takes, in any order. Which step comes next is up to the
-- callers, the workers, the model client, the tools and the clock.
use production_agent_runtime.Common.{ℕ, Option, List, [], ◌∷◌, Text}
use production_agent_runtime.Common.Exec.{Exec, Result, pure, ◌>>=◌}
use production_agent_runtime.Models.{AgentKind, LlmResponse}
use production_agent_runtime.Runtime.State.{Runtime}
use production_agent_runtime.Runtime.Submit.{submit}
use production_agent_runtime.Runtime.Control.{wait, cancel, retry, close, finish_close}
use production_agent_runtime.Runtime.Execute.{
  begin, request_llm, llm_returned, request_tool, tool_returned, finish,
}
use production_agent_runtime.Runtime.Worker.{worker_take, worker_release}

pub data Action : Type 0 where
  submits : Text → AgentKind → Option Text → Option Text → Action
  waits : Text → Action
  cancels : Text → Action
  retries : Text → Action
  closes : Action
  closes_events : Action
  takes : Action
  begins : Text → Action
  requests_llm : Text → Text → ℕ → Action
  gets_answer : Text → Text → ℕ → Result LlmResponse → Action
  requests_tool : Text → Text → Text → Action
  gets_result : Text → Text → ℕ → Result Text → Action
  finishes : Text → ℕ → Result Text → Action
  releases : Text → Action

abbrev pub ignore : {A : Type 0} → Exec Runtime A → Exec Runtime Unit
ignore m = m >>= λ _. pure tt

unfoldable pub perform : Action → Exec Runtime Unit
perform (submits input kind session_id key) = ignore (submit input kind session_id key)
perform (waits id) = ignore (wait id)
perform (cancels id) = ignore (cancel id)
perform (retries id) = ignore (retry id)
perform closes = close
perform closes_events = finish_close
perform takes = worker_take
perform (begins id) = ignore (begin id)
perform (requests_llm id step messages) = ignore (request_llm id step messages)
perform (gets_answer id step started answer) = llm_returned id step started answer
perform (requests_tool id name step) = ignore (request_tool id name step)
perform (gets_result id name started answer) = tool_returned id name started answer
perform (finishes id started answer) = finish id started answer
perform (releases id) = worker_release id

-- An exception ends its own step only.
unfoldable pub run_actions : List Action → Runtime → Runtime
run_actions [] s = s
run_actions (a ∷ actions) s = run_actions actions (perform a s).1
