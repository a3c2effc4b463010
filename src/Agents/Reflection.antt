-- ===== src/Agents/Reflection.antt =====
-- SimpleAgent and ReflectionAgent of agents/patterns.py.
use production_agent_runtime.Common.{[], ◌∷◌, ◌++◌, Text, text}
use production_agent_runtime.Common.Exec.{Exec, pure, ◌>>=◌}
use production_agent_runtime.Models.{LlmResponse}
use production_agent_runtime.Agents.{AgentContext, say, ask}

module _ {S : Type 0} (context : AgentContext S) where
  -- SimpleAgent.run
  unfoldable pub simple : Exec S Text
  simple = do
    system ←
        say (text "system")
          (text "You are a reliable assistant. Answer the current request directly and clearly.")
    user ← say (text "user") context.task
    response ← ask context (system ∷ (context.history ++ user ∷ [])) (text "simple.generate")
    pure response.content

  unfoldable pub draft_answer : Exec S LlmResponse
  draft_answer = do
    user ← say (text "user") context.task
    system ← say (text "system") (text "Produce a factually grounded first draft.")
    ask context (system ∷ (context.history ++ user ∷ [])) (text "reflection.draft")

  unfoldable pub criticise : Text → Exec S LlmResponse
  criticise draft = do
    system ← say (text "system") (
        text
          "Critique the draft. Identify factual gaps, missing constraints, and unclear reasoning.")
    user ← say (text "user") (text "Task:\n" ++ (context.task ++ (text "\n\nDraft:\n" ++ draft)))
    ask context (system ∷ user ∷ []) (text "reflection.critique")

  unfoldable pub revise : Text → Text → Exec S LlmResponse
  revise draft critique = do
    system ←
        say (text "system")
          (text "Revise the draft using the critique. Return only the improved final answer.")
    user ← say (text "user") (
        text "Task:\n"
        ++ (context.task
            ++ (text "\n\nDraft:\n" ++ (draft ++ (text "\n\nCritique:\n" ++ critique)))))
    ask context (system ∷ user ∷ []) (text "reflection.revise")

  -- ReflectionAgent.run
  unfoldable pub reflection : Exec S Text
  reflection = do
    draft ← draft_answer
    critique ← criticise draft.content
    revised ← revise draft.content critique.content
    pure revised.content
