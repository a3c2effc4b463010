-- ===== src/Lib.antt =====
-- A verification library for the agent runtime (src/agent_runtime).
--
-- The program accepts agent runs, keeps them in a registry, and executes them with a fixed number
-- of workers that take their tasks from a bounded queue. A run moves through a state machine; its
-- agent asks a model client and calls tools, and every transition is counted in the metrics and
-- published as an event. The model client is wrapped in a rate limiter, a circuit breaker and retries.
-- The engine is reached over HTTP.
--
-- Common            lists, texts (code points), dictionaries in insertion order, signed numbers,
--                   JSON values, `str` methods, sorting, exceptions (src/agent_runtime/errors.py), and `Exec`, methods that change a
--                   state and may raise: what was written before a raise stays written
-- Models            src/agent_runtime/models.py, with the dictionaries of runs in Models/Encode
-- Metrics           src/agent_runtime/metrics.py: MetricsRegistry, with Metrics/Render
-- Fsm               src/agent_runtime/fsm.py: StateMachine over any store of runs. Fsm/Legal has the
--                   diagram of docs/state-machine.md, Fsm/History the transition log
-- Sessions          src/agent_runtime/sessions.py: SessionStore, with Sessions/Bounded
-- Events            src/agent_runtime/events.py: AuditTrail and EventBus, with Events/Audit and
--                   Events/Delivery
-- Config            src/agent_runtime/config.py: the sections and `validate`, with Config/Valid;
--                   Expand has `_expand_env` (with Missing), Load `from_dict` and `load` (with Loaded)
-- Resilience        src/agent_runtime/llm/resilience.py: TokenBucket, Breaker (CircuitBreaker) and
--                   Client (ResilientLLMClient), each with its theorems below it
-- Adapters          src/agent_runtime/adapters/memory.py: Queue (InMemoryTaskQueue), Leases
--                   (InMemoryLeaseManager), Checkpoints (InMemoryCheckpointStore), Runs
--                   (InMemoryRunRepository) and Publisher (InMemoryEventPublisher)
-- Agents            src/agent_runtime/agents/patterns.py: Parse has the parsers, React, Reflection
--                   (with SimpleAgent) and Plan the patterns, Patterns the choice among them; Cost
--                   and Kept are about all four
-- Runtime           src/agent_runtime/runtime.py: AgentRuntime. State has its attributes, Construct
--                   the constructor, Registry `_cleanup_runs`, `get` and `list_runs`, Submit
--                   `start` and `submit`, Control `wait`, `cancel`, `retry` and `close`, Execute
--                   `_execute`, `_complete` and `_execute_tool` cut at their suspensions, Worker
--                   `_worker_loop`, Steps the event loop; Execution is `_execute` as a whole, with
--                   the pattern. Refinement relates it to the steps; Invariant, KeptByFsm, Kept,
--                   KeptByCalls, KeptByControl and Reopen are about what each method keeps, Always
--                   about any sequence of steps, Cleanup and Eviction about the registry, Replay,
--                   Held, Admission and Resubmit about idempotency keys
-- Providers         src/agent_runtime/llm/openai_compatible.py: OpenAi, with Answers; and
--                   src/agent_runtime/llm/mock.py: Mock and Scripted
-- Tools             src/agent_runtime/tools.py: ToolRegistry, with Describe, Failures and Bulkhead;
--                   Calculator is `safe_calculate`, with Depth and Powers
-- Factory           src/agent_runtime/factory.py: `create_runtime`, with Factory/Built
-- Api               src/agent_runtime/api.py: the constraints on a request, Errors the exception
--                   handlers, Handlers the routes, Answers what they reply
-- Examples          runs of the code on concrete inputs
--
-- Concurrency. The program runs on one event loop, so the code between two suspensions is atomic. An
-- `await` on a lock that is free, and on a method that never suspends, does not suspend; the engine's
-- methods hold their locks only over such code, so each lock is free whenever another task runs. A
-- method that does suspend (for the model, a tool, an event, a timeout) is split there, and the steps
-- after it take what came back as an argument: `Action` lists the steps, and a theorem about any list
-- of actions is about every interleaving. A task that is cancelled or times out goes on with
-- CancelledError or TimeoutError as what came back. In Resilience/Client what other requests do in a
-- suspension is a function on what they share.
--
-- Numbers. Times are whole numbers of clock ticks, amounts and ratios are millionths; a quotient is
-- rounded up where the code waits and down where it adds jitter. Differences that the code cuts off at
-- 0 use the subtraction that stops there, and the other comparisons have the subtraction moved to the
-- other side. Readings of clocks, generated identifiers, answers of models and tools, random numbers
-- and event handlers are arguments. A run is an object that is referred to by its identifier: the
-- registry has the identifiers, and an evicted run is still held by its task.
--
-- Loops are recursion on a list or on a number: the attempts of a request on `max_attempts`, the rounds
-- of a rate limiter on the readings of the clock, and the rounds of a subscription's workers, at its
-- close, on the length of its queue, which is enough since every round takes an item.
--
-- Third parties are parameters: Python's json, its formatting and conversion of numbers, str.lower and
-- str.isalnum, the parser of expressions and the arithmetic on floats, the HTTP client, the tools'
-- functions and what the web framework reports of a request that is not valid.
--
-- Not modelled: the command line (cli.py) and the lifespan in api.py, which start and close the engine;
-- values of a wrong type in a configuration file, which Python notices during the validation.
pub mod Common
pub mod Models
pub mod Metrics
pub mod Fsm
pub mod Sessions
pub mod Events
pub mod Config
pub mod Resilience
pub mod Adapters
pub mod Agents
pub mod Runtime
pub mod Providers
pub mod Tools
pub mod Factory
pub mod Api
pub mod Examples
