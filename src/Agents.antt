-- ===== src/Agents.antt =====
-- src/agent_runtime/agents/patterns.py: what the four patterns share. A pattern is a method over any
-- state; what it does to the state is what its context's two functions do.
pub mod Parse
pub mod React
pub mod Reflection
pub mod Plan
pub mod Patterns
pub mod Cost
pub mod Kept
use production_agent_runtime.Common.{ℕ, Option, none, List, [], ◌∷◌, ◌++◌, Text, text}
use production_agent_runtime.Common.Int.{pos}
use production_agent_runtime.Common.Json.{Json, Fields}
use production_agent_runtime.Common.Exec.{Exec, Result, ◌>>=◌}
use production_agent_runtime.Models.{Message, LlmRequest, LlmResponse, new_message, new_request}

-- Python's `json` and `str` on decoded values: `loads` is none where it raises JSONDecodeError.
pub record Codec : Type 0 where
  pub loads : Text → Option Json
  pub dumps : Json → Text
  pub show : Json → Text

pub record AgentContext (S : Type 0) : Type 0 where
  pub task : Text
  pub history : List Message
  pub max_steps : ℕ
  pub tool_descriptions : Json
  pub complete : LlmRequest → Text → Exec S LlmResponse
  pub execute_tool : Text → Fields → Text → Exec S Text

-- a constructor that may raise
abbrev pub built : {S A : Type 0} → Result A → Exec S A
built r s = (r, s)

-- Message(role, content)
abbrev pub say : {S : Type 0} → Text → Text → Exec S Message
say role content = built (new_message role content none)

-- context.complete(LLMRequest(messages), step)
unfoldable pub ask : {S : Type 0} → AgentContext S → List Message → Text → Exec S LlmResponse
ask context messages step = do
  request ← built (new_request messages none (pos 0) (pos 1024))
  context.complete request step
