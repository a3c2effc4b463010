-- ===== src/Factory/Built.antt =====
-- A valid configuration makes a runtime.
use production_agent_runtime.Common.{
  ℕ, ◌<◌, ◌≡◌, refl, false, [], text, text_eq, strip, lstrip, leb, arith,
}
use production_agent_runtime.Common.Dict
use production_agent_runtime.Common.Int.{pos_part}
use production_agent_runtime.Common.Exec.{Result, ok, err, ◌>>=◌}
use production_agent_runtime.Common.Exec.Results
use production_agent_runtime.Common.Exec.Results.{◌>>◌}
use production_agent_runtime.Events.{new_trail}
use production_agent_runtime.Sessions.{new_store}
use production_agent_runtime.Adapters.Queue.{new_queue}
use production_agent_runtime.Models.{not_positive}
use production_agent_runtime.Config.{
  AppConfig, validate, validate_provider, validate_retry, validate_rate_limit,
  validate_circuit_breaker, validate_runtime,
}
use production_agent_runtime.Config.Valid.{validate_lem}
use production_agent_runtime.Resilience.TokenBucket.{new_bucket}
use production_agent_runtime.Resilience.Breaker.{new_breaker}
use production_agent_runtime.Runtime.State.{World}
use production_agent_runtime.Runtime.Construct.{new_runtime}
use production_agent_runtime.Tools.{ToolRegistry, new_registry, register_builtin_tools, register}
use production_agent_runtime.Factory.{Assembly, create_runtime, filled}

then_ok : (r later : Result (Unit {0})) → (r >> later) ≡ ok tt → (r ≡ ok tt) × (later ≡ ok tt)
then_ok (ok tt) later h = (refl, h)
then_ok (err e) later h = ground (arith, h)

-- the runtime has the configured sizes, and is empty and not started
pub record IsBuilt (config : AppConfig) (a : Assembly) : Type 0 where
  pub capacity : a.runtime.queue.capacity ≡ pos_part config.runtime.queue_capacity
  pub bound : a.runtime.sessions.max_messages ≡ pos_part config.runtime.history_messages
  pub trail : a.runtime.events.audit.capacity ≡ pos_part config.runtime.audit_capacity
  pub empty : a.runtime.runs ≡ []
  pub idle : a.runtime.started ≡ false

-- a runtime is made, and no exception raised
abbrev pub Builds : AppConfig → Result Assembly → Type 0
Builds config (ok a) = IsBuilt config a
Builds config (err e) = ⊥

-- every section of a valid configuration is valid
record AllValid (c : AppConfig) : Type 0 where
  retry : validate_retry c.retry ≡ ok tt
  rate_limit : validate_rate_limit c.rate_limit ≡ ok tt
  circuit_breaker : validate_circuit_breaker c.circuit_breaker ≡ ok tt
  runtime : validate_runtime c.runtime ≡ ok tt

validate-AllValid : (c : AppConfig) → validate c ≡ ok tt → AllValid c
unfolding validate
validate-AllValid c h =
    let (provider, a) = then_ok (validate_provider c.provider) _ h in
    let (retry, b) = then_ok (validate_retry c.retry) _ a in
    let (rate_limit, d) = then_ok (validate_rate_limit c.rate_limit) _ b in
    let (circuit_breaker, e) = then_ok (validate_circuit_breaker c.circuit_breaker) _ d in
    record {
      retry = retry;
      rate_limit = rate_limit;
      circuit_breaker = circuit_breaker;
      runtime = e;
    }

threads_positive :
    (c : AppConfig)
    → validate_runtime c.runtime ≡ ok tt
    → not_positive c.runtime.thread_workers ≡ false
unfolding validate_runtime
threads_positive c h = ground arith

above : (n : ℕ) → 0 < n → leb n 0 ≡ false
above n h = ground arith

-- the two names are not blank, and differ
builtin :
    (timeout : ℕ)
    → (tools : ToolRegistry) × (filled (register_builtin_tools (new_registry timeout []))
        ≡ ok tools)
unfolding register_builtin_tools register text strip lstrip text_eq Dict.get Dict.put ◌>>=◌
builtin timeout = (_, refl)

-- A configuration that passes the validation makes a runtime: no constructor on the way raises. The
-- runtime has the configured sizes of the queue, the sessions and the audit trail, has no runs yet
-- and is not started.
pub create_runtime-IsBuilt :
    (world : World) (now : ℕ) (c : AppConfig)
    → validate c ≡ ok tt
    → Builds c (create_runtime world now c)
unfolding create_runtime new_bucket new_breaker new_trail new_runtime new_store new_queue
    Results.◌>>=◌
create_runtime-IsBuilt world now c valid =
    let all = validate-AllValid c valid in
    let (roomy, ordered) = validate_lem c valid in
    rw
      (
        threads_positive c all.runtime,
        all.rate_limit,
        all.circuit_breaker,
        all.retry,
        above (pos_part c.runtime.audit_capacity) roomy.audit,
        (builtin (pos_part c.runtime.tool_timeout)).1,
        all.runtime,
        above (pos_part c.runtime.history_messages) roomy.history,
        above (pos_part c.runtime.queue_capacity) roomy.queued,
      )
      (record { capacity = refl; bound = refl; trail = refl; empty = refl; idle = refl })
