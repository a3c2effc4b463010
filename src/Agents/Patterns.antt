-- ===== src/Agents/Patterns.antt =====
-- `create_patterns` of agents/patterns.py: the pattern of each kind.
use production_agent_runtime.Common.{Text}
use production_agent_runtime.Common.Exec.{Exec}
use production_agent_runtime.Models.{AgentKind}
use production_agent_runtime.Agents.{Codec, AgentContext}
use production_agent_runtime.Agents.React.{react}
use production_agent_runtime.Agents.Reflection.{simple, reflection}
use production_agent_runtime.Agents.Plan.{plan_solve}

-- self.patterns[kind].run(context)
unfoldable pub run_pattern : {S : Type 0} → AgentKind → Codec → AgentContext S → Exec S Text
run_pattern AgentKind.simple codec context = simple context
run_pattern AgentKind.react codec context = react codec context
run_pattern AgentKind.reflection codec context = reflection context
run_pattern AgentKind.plan_solve codec context = plan_solve context codec
