-- ===== src/Runtime/Execution.antt =====
-- A whole execution of a run: `_execute` of runtime.py around the pattern, with `_complete` and
-- `_execute_tool` as the pattern's two functions. At each suspension the event loop performs other
-- actions, and then the model client or the tool answers.
use production_agent_runtime.Common.{ℕ, ◌+◌, Bool, true, Option, none, some, List, Text, length}
use production_agent_runtime.Common.Int.{pos_part}
use production_agent_runtime.Common.Json.{Json, Fields}
use production_agent_runtime.Common.Exec.{
  Exec, Result, ok, err, pure, gets, modify, ◌>>=◌, ◌>>◌, timeout_error, cancelled_error,
}
use production_agent_runtime.Models.{RunRecord, Message, LlmRequest, LlmResponse}
use production_agent_runtime.Sessions
use production_agent_runtime.Agents.{Codec, AgentContext, built}
use production_agent_runtime.Agents.Patterns.{run_pattern}
use production_agent_runtime.Runtime.State.{Runtime, load}
use production_agent_runtime.Runtime.Execute.{
  begin, request_llm, llm_returned, request_tool, tool_returned, finish,
}
use production_agent_runtime.Runtime.Steps.{Action, run_actions}

-- what happens while the execution is suspended, and what it is resumed with
pub record Suspension : Type 0 where
  pub others : List Action
  pub llm_answer : Result LlmResponse
  pub tool_answer : Result Text

-- What the execution meets outside the engine: Python's `json`, the tools' descriptions, each
-- suspension, and whether a cancellation that reaches the pattern is that of `wait_for`.
pub record Outside : Type 0 where
  pub codec : Codec
  pub tool_descriptions : Json
  pub suspension : ℕ → Suspension
  pub timed_out : Bool

pub record Execution : Type 0 where
  pub engine : Runtime
  pub suspended : ℕ

unfoldable pub on_engine : {A : Type 0} → Exec Runtime A → Exec Execution A
on_engine m e = let (r, s) = m e.engine in (r, record e { engine = s })

-- an awaited call outside the engine
unfoldable pub suspend : List Action → Exec Execution Unit
suspend others =
    modify λ e. record { engine = run_actions others e.engine; suspended = e.suspended + 1 }

-- `_complete`
unfoldable pub complete_call : Outside → Text → LlmRequest → Text → Exec Execution LlmResponse
complete_call outside id request step = do
  started ← on_engine (request_llm id step (length request.messages))
  now ← gets (λ e. outside.suspension e.suspended)
  suspend now.others
  on_engine (llm_returned id step started now.llm_answer)
  built now.llm_answer

-- `_execute_tool`
unfoldable pub tool_call : Outside → Text → Text → Fields → Text → Exec Execution Text
tool_call outside id name arguments step = do
  started ← on_engine (request_tool id name step)
  now ← gets (λ e. outside.suspension e.suspended)
  suspend now.others
  on_engine (tool_returned id name started now.tool_answer)
  built now.tool_answer

-- AgentContext(…)
unfoldable pub context_of : Outside → RunRecord → List Message → ℕ → AgentContext Execution
context_of outside run history max_steps = record {
  task = run.input;
  history = history;
  max_steps = max_steps;
  tool_descriptions = outside.tool_descriptions;
  complete = complete_call outside run.id;
  execute_tool = tool_call outside run.id;
}

-- the body from the history to the pattern's output
unfoldable pub run_body : Outside → Text → Exec Execution Text
run_body outside id = do
  run ← on_engine (load id)
  history ← on_engine (gets (λ s. Sessions.get run.session_id s.sessions))
  max_steps ← on_engine (gets (λ s. pos_part s.config.max_agent_steps))
  run_pattern run.kind outside.codec (context_of outside run history max_steps)

-- what a method returned or raised, as a value
abbrev pub attempt : {S A : Type 0} → Exec S A → Exec S (Result A)
attempt m s = let (r, s') = m s in (ok r, s')

-- asyncio.wait_for: the cancellation that it sent comes out as TimeoutError
unfoldable pub wait_for : {A : Type 0} → Bool → Result A → Result A
wait_for true (err cancelled_error) = err timeout_error
wait_for timed_out r = r

unfoldable pub execute_started : Outside → Text → Option ℕ → Exec Execution Unit
execute_started outside id none = pure tt
execute_started outside id (some started) = do
  answer ← attempt (run_body outside id)
  on_engine (finish id started (wait_for outside.timed_out answer))

-- `_execute`
unfoldable pub execute : Outside → Text → Exec Execution Unit
execute outside id = do started ← on_engine (begin id); execute_started outside id started
