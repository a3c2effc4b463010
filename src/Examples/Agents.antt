-- ===== src/Examples/Agents.antt =====
-- The patterns and a whole execution on concrete inputs.
use production_agent_runtime.Common.{ℕ, ◌+◌, false, none, [], text, arith}
use production_agent_runtime.Common.Json.{null}
use production_agent_runtime.Common.Exec.{ok}
use production_agent_runtime.Common.Exec.Costs.{Costs}
use production_agent_runtime.Models.{AgentKind, LlmResponse, ready}
use production_agent_runtime.Agents.{Codec, AgentContext}
use production_agent_runtime.Agents.Patterns.{run_pattern}
use production_agent_runtime.Agents.Cost.{run_pattern-Costs}
use production_agent_runtime.Runtime.Execution.{Outside, Execution}
use production_agent_runtime.Examples.Engine.{new, engine}

-- a decoder that decodes nothing
abbrev codec : Codec
codec = record { loads = λ s. none; dumps = λ v. []; show = λ v. [] }

abbrev response : LlmResponse
response = record {
  content = text " fine ";
  model = text "m";
  prompt_tokens = none;
  completion_tokens = none;
  finish_reason = none;
}

-- a context that counts its calls
abbrev counting : AgentContext ℕ
counting = record {
  task = text "t";
  history = [];
  max_steps = 2;
  tool_descriptions = null;
  complete = λ request step n. (ok response, n + 1);
  execute_tool = λ name arguments step n. (ok (text "r"), n + 1);
}

run_pattern-Costs_example : Costs (λ n. n) 5 (run_pattern AgentKind.react codec counting)
run_pattern-Costs_example =
    run_pattern-Costs (λ n. n) 1 1 codec counting
      (λ request step. record { within = λ s. omega arith })
      (λ name arguments step. record { within = λ s. omega arith }) AgentKind.react

-- the model answers; nothing else happens
abbrev outside : Outside
outside = record {
  codec = codec;
  tool_descriptions = null;
  suspension = λ n. record { others = []; llm_answer = ok response; tool_answer = ok (text "r") };
  timed_out = false;
}

abbrev start : Execution
start = record { engine = engine (record new { state = ready }); suspended = 0 }
