-- ===== src/Factory.antt =====
-- src/agent_runtime/factory.py: the parts of a runtime, made from the configuration. The thread pool
-- is the standard library's, which refuses a number of threads that is not positive.
pub mod Built
use production_agent_runtime.Common.{ℕ, Bool, false, [], Text, text, text_eq, if◌then◌else◌}
use production_agent_runtime.Common.Int.{ℤ, pos_part}
use production_agent_runtime.Common.Exec.{Exec, Result, ok, err, value_error}
use production_agent_runtime.Common.Exec.Results.{◌>>=◌}
use production_agent_runtime.Models.{not_positive}
use production_agent_runtime.Events.{AuditTrail, EventBus, new_trail}
use production_agent_runtime.Config.{AppConfig, ProviderConfig, RetryConfig, validate_retry}
use production_agent_runtime.Resilience.TokenBucket.{TokenBucket, new_bucket}
use production_agent_runtime.Resilience.Breaker.{Breaker, new_breaker}
use production_agent_runtime.Runtime.State.{Runtime, World}
use production_agent_runtime.Runtime.Construct.{new_runtime}
use production_agent_runtime.Providers.Mock.{MockClient}
use production_agent_runtime.Tools.{ToolRegistry, new_registry, register_builtin_tools}

pub data Provider : Type 0 where
  mock : MockClient → Provider
  openai_compatible : ProviderConfig → Provider

-- the runtime with the parts that it holds: `llm` is the resilient client of the four before it
pub record Assembly : Type 0 where
  pub provider : Provider
  pub retry : RetryConfig
  pub limiter : TokenBucket
  pub breaker : Breaker
  pub tools : ToolRegistry
  pub runtime : Runtime

-- ThreadPoolExecutor(max_workers)
abbrev pub new_executor : ℤ → Result (Unit {0})
new_executor max_workers =
    if not_positive max_workers
    then err (value_error (text "max_workers must be greater than 0"))
    else ok tt

unfoldable pub provider_of : ProviderConfig → Provider
provider_of config =
    if text_eq config.backend (text "mock")
    then mock (record { model = config.model; calls = 0 })
    else openai_compatible config

-- EventBus(audit_capacity, …)
abbrev pub new_bus : Result AuditTrail → Result EventBus
new_bus (ok audit) = ok (record { audit = audit; subscriptions = []; started = false })
new_bus (err e) = err e

-- register_builtin_tools(tools)
abbrev pub filled : Result (Unit {0}) × ToolRegistry → Result ToolRegistry
filled (ok u, tools) = ok tools
filled (err e, tools) = err e

-- `create_runtime`; `now` is what the limiter's clock shows
unfoldable pub create_runtime : World → ℕ → AppConfig → Result Assembly
create_runtime world now config = do
  _ ← new_executor config.runtime.thread_workers
  limiter ← new_bucket config.rate_limit now
  breaker ← new_breaker config.circuit_breaker
  _ ← validate_retry config.retry
  events ← new_bus (new_trail (pos_part config.runtime.audit_capacity))
  tools ← filled (register_builtin_tools (new_registry (pos_part config.runtime.tool_timeout) []))
  runtime ← new_runtime world config.runtime [] events
  ok (record {
    provider = provider_of config.provider;
    retry = config.retry;
    limiter = limiter;
    breaker = breaker;
    tools = tools;
    runtime = runtime;
  })
