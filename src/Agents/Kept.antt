-- ===== src/Agents/Kept.antt =====
-- A pattern keeps what its context's functions keep.
use production_agent_runtime.Common.{ℕ, zero, suc, ◌+◌, List, [], ◌∷◌, Text}
use production_agent_runtime.Common.Json.{Fields}
use production_agent_runtime.Common.Exec.{Exec, Result}
use production_agent_runtime.Common.Exec.Keeps.{Keeps, Keeps-bind, keeps_rules}
use production_agent_runtime.Models.{AgentKind, Message, LlmRequest}
use production_agent_runtime.Agents.{Codec, AgentContext, built, ask}
use production_agent_runtime.Agents.React.{
  Decision, answer, act, decide, follow, last_answer, rounds, react,
}
use production_agent_runtime.Agents.Reflection.{simple, reflection, draft_answer, criticise, revise}
use production_agent_runtime.Agents.Plan.{make_plan, solve, solve_all, synthesize, plan_solve}
use production_agent_runtime.Agents.Patterns.{run_pattern}

pub Keeps-built : {S A : Type 0} {Inv : S → Type 0} (r : Result A) → Keeps Inv (built {S = S} r)
Keeps-built r = record { at = λ s h. h }

module _ {S : Type 0} (Inv : S → Type 0) (codec : Codec) (context : AgentContext S)
    (model : (request : LlmRequest) (step : Text) → Keeps Inv (context.complete request step))
    (tools : (name : Text) (arguments : Fields) (step : Text)
      → Keeps Inv (context.execute_tool name arguments step)) where
  ask-Keeps : (messages : List Message) (step : Text) → Keeps Inv (ask context messages step)
  unfolding ask
  ask-Keeps messages step = search (keeps_rules, Keeps-built, model)

  last_answer-Keeps : (messages : List Message) → Keeps Inv (last_answer codec context messages)
  unfolding last_answer
  last_answer-Keeps messages = search (keeps_rules, Keeps-built, ask-Keeps)

  follow-Keeps :
      (index : ℕ) (content : Text) (messages : List Message) (next : List Message → Exec S Text)
      (d : Decision)
      → ((later : List Message) → Keeps Inv (next later))
      → Keeps Inv (follow codec context index content messages next d)
  unfolding follow
  follow-Keeps index content messages next (answer final) later = search keeps_rules
  follow-Keeps index content messages next (act action arguments) later =
      search (keeps_rules, Keeps-built, later) depth 8

  rounds-Keeps :
      (left index : ℕ) (messages : List Message)
      → Keeps Inv (rounds codec context left index messages)
  unfolding rounds
  rounds-Keeps zero index messages = last_answer-Keeps messages
  rounds-Keeps (suc left) index messages = Keeps-bind _ _ (ask-Keeps _ _) λ response.
      follow-Keeps index response.content messages _ (decide codec response.content)
        (λ later. rounds-Keeps left (index + 1) later)

  solve_all-Keeps :
      (index : ℕ) (plan results : List Text) → Keeps Inv (solve_all context index plan results)
  unfolding solve_all solve
  solve_all-Keeps index [] results = search keeps_rules
  solve_all-Keeps index (step ∷ plan) results =
      Keeps-bind _ _ (search (keeps_rules, Keeps-built, ask-Keeps) depth 8)
        λ response. solve_all-Keeps (index + 1) plan _

  pub run_pattern-Keeps : (kind : AgentKind) → Keeps Inv (run_pattern kind codec context)
  unfolding run_pattern simple react reflection draft_answer criticise revise plan_solve make_plan
      synthesize
  run_pattern-Keeps AgentKind.simple = search (keeps_rules, Keeps-built, ask-Keeps) depth 8
  run_pattern-Keeps AgentKind.react = search (keeps_rules, Keeps-built, rounds-Keeps) depth 8
  run_pattern-Keeps AgentKind.reflection = search (keeps_rules, Keeps-built, ask-Keeps) depth 12
  run_pattern-Keeps AgentKind.plan_solve =
      search (keeps_rules, Keeps-built, ask-Keeps, solve_all-Keeps) depth 12
