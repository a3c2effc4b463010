-- ===== src/Agents/Plan.antt =====
-- PlanSolveAgent of agents/patterns.py.
use production_agent_runtime.Common.{ℕ, ◌+◌, List, [], ◌∷◌, ◌++◌, Text, text, take}
use production_agent_runtime.Common.Strings.{decimal, join}
use production_agent_runtime.Common.Exec.{Exec, pure, ◌>>=◌}
use production_agent_runtime.Models.{LlmResponse}
use production_agent_runtime.Agents.{Codec, AgentContext, say, ask}
use production_agent_runtime.Agents.Parse.{parse_plan}

module _ {S : Type 0} (context : AgentContext S) where
  unfoldable pub make_plan : Exec S LlmResponse
  make_plan = do
    system ←
        say (text "system")
          (text "Create a concise execution plan as a JSON array of strings only.")
    user ← say (text "user") context.task
    ask context (system ∷ (context.history ++ user ∷ [])) (text "plan_solve.plan")

  -- one step of the plan; `prior` are the results so far
  unfoldable pub solve : ℕ → Text → List Text → Exec S LlmResponse
  solve index step prior = do
    system ←
        say (text "system")
          (text "Solve only the assigned plan step using the task and prior results.")
    user ← say (text "user") (
        text "Task: "
        ++ (context.task
            ++ (text "\nStep "
                ++ (decimal index
                    ++ (text ": "
                        ++ (step ++ (text "\nPrior results:\n" ++ join (text "\n") prior)))))))
    ask context (system ∷ user ∷ []) (text "plan_solve.step." ++ decimal index)

  abbrev solved : ℕ → Text → Text → Text
  solved index step content =
      text "Step " ++ (decimal index ++ (text " (" ++ (step ++ (text "): " ++ content))))

  -- the loop over the plan: the results
  unfoldable pub solve_all : ℕ → List Text → List Text → Exec S (List Text)
  solve_all index [] results = pure results
  solve_all index (step ∷ plan) results = do
    response ← solve index step results
    solve_all (index + 1) plan (results ++ solved index step response.content ∷ [])

  unfoldable pub synthesize : List Text → Exec S LlmResponse
  synthesize results = do
    system ←
        say (text "system") (
          text "Synthesize the step results into one direct final answer. Do not mention the plan.")
    user ← say (text "user") (
        text "Task: " ++ (context.task ++ (text "\n\nStep results:\n" ++ join (text "\n") results)))
    ask context (system ∷ user ∷ []) (text "plan_solve.synthesize")

  -- PlanSolveAgent.run
  unfoldable pub plan_solve : Codec → Exec S Text
  plan_solve codec = do
    plan_response ← make_plan
    results ← solve_all 1 (take context.max_steps (parse_plan codec plan_response.content)) []
    synthesis ← synthesize results
    pure synthesis.content
