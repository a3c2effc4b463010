-- ===== src/Runtime/Construct.antt =====
-- The constructor of AgentRuntime (runtime.py), for the parts that a caller passes in.
use production_agent_runtime.Common.{[], false}
use production_agent_runtime.Common.Int.{pos_part}
use production_agent_runtime.Common.Exec.{Result, ok}
use production_agent_runtime.Common.Exec.Results.{◌>>=◌}
use production_agent_runtime.Metrics.{Metrics}
use production_agent_runtime.Events.{EventBus}
use production_agent_runtime.Sessions.{new_store}
use production_agent_runtime.Config.{RuntimeConfig, validate_runtime}
use production_agent_runtime.Adapters.Queue.{new_queue}
use production_agent_runtime.Runtime.State.{Runtime, World}

-- AgentRuntime(config, llm, metrics=…, event_bus=…), in a world of clocks and identifiers
unfoldable pub new_runtime : World → RuntimeConfig → Metrics → EventBus → Result Runtime
new_runtime world config metrics events = do
  _ ← validate_runtime config
  sessions ← new_store (pos_part config.history_messages)
  queue ← new_queue (pos_part config.queue_capacity)
  ok (record {
    world = world;
    times_read = 0;
    perf_read = 0;
    uuids_drawn = 0;
    config = config;
    metrics = metrics;
    events = events;
    sessions = sessions;
    locks = [];
    objects = [];
    runs = [];
    completion = [];
    idempotency_index = [];
    idempotency_by_run = [];
    queue = queue;
    workers = 0;
    tasks = [];
    started = false;
    closed = false;
  })
