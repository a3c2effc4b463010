-- ===== src/Agents/Cost.antt =====
-- How often a pattern asks the model and calls tools at most.
use native.Mathlib.Nat.{mul-le-mul_right}
use production_agent_runtime.Common.{
  ℕ, zero, suc, ◌+◌, ◌*◌, ◌≤◌, List, [], ◌∷◌, ◌++◌, Text, take, length, length-take, arith,
}
use production_agent_runtime.Common.Json.{Fields}
use production_agent_runtime.Common.Exec.{Exec, ◌>>=◌}
use production_agent_runtime.Common.Exec.Costs.{
  Costs, Costs-bind, Costs-free_bind, Costs-stop, Costs-bind_stop, Costs-weaken,
}
use production_agent_runtime.Models.{AgentKind, Message, LlmRequest}
use production_agent_runtime.Agents.{Codec, AgentContext, say, ask}
use production_agent_runtime.Agents.React.{
  Decision, answer, act, decide, follow, last_answer, rounds, react,
}
use production_agent_runtime.Agents.Reflection.{simple, reflection, draft_answer, criticise, revise}
use production_agent_runtime.Agents.Plan.{make_plan, solve, solve_all, synthesize, plan_solve}
use production_agent_runtime.Agents.Parse.{parse_plan}
use production_agent_runtime.Agents.Patterns.{run_pattern}

-- the calls of a pattern, for one model call at price a and one tool call at price b
abbrev pub limit : AgentKind → ℕ → ℕ → ℕ → ℕ
limit AgentKind.simple steps a b = a
limit AgentKind.react steps a b = steps * (a + b) + a
limit AgentKind.reflection steps a b = 3 * a
limit AgentKind.plan_solve steps a b = (steps + 2) * a

module _ {S : Type 0} (measure : S → ℕ) (a b : ℕ) (codec : Codec) (context : AgentContext S)
    (model : (request : LlmRequest) (step : Text) → Costs measure a (context.complete request step))
    (tools : (name : Text) (arguments : Fields) (step : Text)
      → Costs measure b (context.execute_tool name arguments step)) where
  taken : (plan : List Text) → length (take context.max_steps plan) ≤ context.max_steps
  taken plan = omega (arith, length-take context.max_steps plan)

  ask-Costs : (messages : List Message) (step : Text) → Costs measure a (ask context messages step)
  unfolding ask
  ask-Costs messages step = Costs-free_bind a _ _ (Costs-stop _) (λ request. model request step)

  -- two messages, and a call of the model with them
  ask_two-Costs :
      (role content role' content' : Text) (messages : Message → Message → List Message)
      (step : Text)
      → Costs measure a
          (say role content >>= λ m. say role' content' >>= λ m'. ask context (messages m m') step)
  ask_two-Costs role content role' content' messages step =
      Costs-free_bind a _ _ (Costs-stop _)
        λ m. Costs-free_bind a _ _ (Costs-stop _) λ m'. ask-Costs (messages m m') step

  last_answer-Costs :
      (messages : List Message) → Costs measure a (last_answer codec context messages)
  unfolding last_answer
  last_answer-Costs messages =
      Costs-free_bind a _ _ (Costs-stop _) λ stop. Costs-bind_stop a _ _ (ask-Costs _ _)

  follow-Costs :
      (n index : ℕ) (content : Text) (messages : List Message) (next : List Message → Exec S Text)
      (d : Decision)
      → ((later : List Message) → Costs measure n (next later))
      → Costs measure (b + n) (follow codec context index content messages next d)
  unfolding follow
  follow-Costs n index content messages next (answer final) later =
      Costs-weaken 0 _ _ (omega arith) (Costs-stop _)
  follow-Costs n index content messages next (act action arguments) later =
      Costs-bind b n _ _ (tools _ _ _) λ observation.
        Costs-free_bind n _ _ (Costs-stop _)
          λ thought. Costs-free_bind n _ _ (Costs-stop _) λ result. later _

  rounds-Costs :
      (left index : ℕ) (messages : List Message)
      → Costs measure (left * (a + b) + a) (rounds codec context left index messages)
  unfolding rounds
  rounds-Costs zero index messages = Costs-weaken a _ _ (omega arith) (last_answer-Costs messages)
  rounds-Costs (suc left) index messages =
      Costs-weaken (a + (b + (left * (a + b) + a))) _ _ (grind arith) (
        Costs-bind a (b + (left * (a + b) + a)) _ _ (ask-Costs _ _) λ response.
          follow-Costs (left * (a + b) + a) index response.content messages
            (rounds codec context left (index + 1)) (decide codec response.content)
            (λ later. rounds-Costs left (index + 1) later))

  solve_all-Costs :
      (index : ℕ) (plan results : List Text)
      → Costs measure (length plan * a) (solve_all context index plan results)
  unfolding solve_all solve
  solve_all-Costs index [] results = Costs-weaken 0 _ _ (omega arith) (Costs-stop _)
  solve_all-Costs index (step ∷ plan) results =
      Costs-weaken (a + length plan * a) _ _ (grind arith) (
        Costs-bind a (length plan * a) _ _ (ask_two-Costs _ _ _ _ (λ m m'. m ∷ m' ∷ []) _)
          λ response. solve_all-Costs (index + 1) plan _)

  steps-Costs :
      (plan : List Text)
      → Costs measure (context.max_steps * a) (solve_all context 1 (take context.max_steps plan) [])
  steps-Costs plan =
      Costs-weaken _ _ _ (mul-le-mul_right a (taken plan))
        (solve_all-Costs 1 (take context.max_steps plan) [])

  simple-Costs : Costs measure a (simple context)
  unfolding simple
  simple-Costs =
      Costs-free_bind a _ _ (Costs-stop _)
        λ system. Costs-free_bind a _ _ (Costs-stop _) λ user. Costs-bind_stop a _ _ (ask-Costs _ _)

  reflection-Costs : Costs measure (3 * a) (reflection context)
  unfolding reflection draft_answer criticise revise
  reflection-Costs = Costs-weaken (a + (a + a)) _ _ (omega arith) (
      Costs-bind a (a + a) _ _
        (ask_two-Costs _ _ _ _ (λ user system. system ∷ (context.history ++ user ∷ [])) _)
        λ draft.
          Costs-bind a a _ _ (ask_two-Costs _ _ _ _ (λ m m'. m ∷ m' ∷ []) _)
            λ critique. Costs-bind_stop a _ _ (ask_two-Costs _ _ _ _ (λ m m'. m ∷ m' ∷ []) _))

  plan_solve-Costs : Costs measure ((context.max_steps + 2) * a) (plan_solve context codec)
  unfolding plan_solve make_plan synthesize
  plan_solve-Costs = Costs-weaken (a + (context.max_steps * a + a)) _ _ (grind arith) (
      Costs-bind a (context.max_steps * a + a) _ _
        (ask_two-Costs _ _ _ _ (λ system user. system ∷ (context.history ++ user ∷ [])) _)
        λ plan_response.
          Costs-bind (context.max_steps * a) a _ _
            (steps-Costs (parse_plan codec plan_response.content))
            λ results. Costs-bind_stop a _ _ (ask_two-Costs _ _ _ _ (λ m m'. m ∷ m' ∷ []) _))

  react-Costs : Costs measure (context.max_steps * (a + b) + a) (react codec context)
  unfolding react
  react-Costs =
      Costs-free_bind _ _ _ (Costs-stop _)
        λ system. Costs-free_bind _ _ _ (Costs-stop _) λ user. rounds-Costs _ _ _

  -- Where a call of the model costs a at most and a call of a tool b, a pattern costs as much as one
  -- model call (simple), max_steps model and tool calls and one more model call (ReAct), three
  -- model calls (reflection) or max_steps + 2 model calls (plan and solve) at most, whatever the
  -- answers are and whether it returns or raises.
  pub run_pattern-Costs :
      (kind : AgentKind)
      → Costs measure (limit kind context.max_steps a b) (run_pattern kind codec context)
  unfolding run_pattern
  run_pattern-Costs AgentKind.simple = simple-Costs
  run_pattern-Costs AgentKind.react = react-Costs
  run_pattern-Costs AgentKind.reflection = reflection-Costs
  run_pattern-Costs AgentKind.plan_solve = plan_solve-Costs
