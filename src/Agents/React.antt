-- ===== src/Agents/React.antt =====
-- ReActAgent of agents/patterns.py.
use production_agent_runtime.Common.{
  ℕ, zero, suc, ◌+◌, Option, none, some, List, [], ◌∷◌, ◌++◌, Text, text, strip, is_blank,
  if◌then◌else◌,
}
use production_agent_runtime.Common.Strings.{decimal}
use production_agent_runtime.Common.Json
use production_agent_runtime.Common.Json.{Json, string, object, Fields, end}
use production_agent_runtime.Common.Exec.{Exec, pure, ◌>>=◌}
use production_agent_runtime.Models.{Message}
use production_agent_runtime.Agents.{Codec, AgentContext, say, ask}
use production_agent_runtime.Agents.Parse.{parse_object}

-- a value that is a text, and not blank
abbrev pub written : Option Json → Option Text
written (some (string s)) = if is_blank (strip s) then none else some s
written _ = none

-- `arguments`, {} if they are no object
abbrev pub arguments_of : Option Json → Fields
arguments_of (some (object fields)) = fields
arguments_of _ = end

-- what a decision asks for: to stop with an answer, or to call a tool
pub data Decision : Type 0 where
  answer : Text → Decision
  act : Text → Fields → Decision

abbrev by_action : Text → Option Text → Fields → Decision
by_action content none arguments = answer content
by_action content (some action) arguments = act action arguments

abbrev by_final : Text → Option Text → Fields → Decision
by_final content (some final) decision = answer (strip final)
by_final content none decision =
    by_action content (written (Json.get decision (text "action")))
      (arguments_of (Json.get decision (text "action_input")))

-- the tests of a round
unfoldable pub decide : Codec → Text → Decision
decide codec content =
    let decision = parse_object codec content in
    by_final content (written (Json.get decision (text "final"))) decision

module _ {S : Type 0} (codec : Codec) (context : AgentContext S) where
  -- the rest of a round behind the decision
  unfoldable pub follow :
      ℕ → Text → List Message → (List Message → Exec S Text) → Decision → Exec S Text
  follow index content messages next (answer final) = pure final
  follow index content messages next (act action arguments) = do
    observation ← context.execute_tool action arguments (text "react.tool." ++ decimal (index + 1))
    thought ← say (text "assistant") content
    result ← say (text "user") (
        text "Tool observation for "
        ++ (action ++ (text ":\n" ++ (observation ++ text "\nContinue with one JSON object."))))
    next (messages ++ (thought ∷ result ∷ []))

  abbrev final_of : Text → Option Text → Text
  final_of content none = content
  final_of content (some final) = strip final

  -- behind the loop
  unfoldable pub last_answer : List Message → Exec S Text
  last_answer messages = do
    stop ←
        say (text "user")
          (text "Stop using tools and return {\"thought\":\"...\",\"final\":\"...\"}.")
    response ← ask context (messages ++ stop ∷ []) (text "react.final")
    let final = written (Json.get (parse_object codec response.content) (text "final"))
    pure (final_of response.content final)

  -- the loop, with the number of rounds left and the round's index
  unfoldable pub rounds : ℕ → ℕ → List Message → Exec S Text
  rounds zero index messages = last_answer messages
  rounds (suc left) index messages = do
    response ← ask context messages (text "react.reason." ++ decimal (index + 1))
    follow index response.content messages (rounds left (index + 1)) (decide codec response.content)

  -- ReActAgent.run
  unfoldable pub react : Exec S Text
  react = do
    system ← say (text "system") (
        text
          "You are a ReAct controller. At every turn return one JSON object only. Use {\"thought\":\"...\",\"action\":\"tool\",\"action_input\":{...}} to call a tool, or {\"thought\":\"...\",\"final\":\"...\"} to finish. Never invent tool output. Available tools: "
        ++ codec.dumps context.tool_descriptions)
    user ← say (text "user") context.task
    rounds context.max_steps 0 (system ∷ (context.history ++ user ∷ []))
