-- ===== src/Config/Valid.antt =====
-- What a runtime configuration that passes `validate` provides.
use production_agent_runtime.Common.{◌+◌, ◌≤◌, ◌<◌, ◌≡◌, false, arith}
use production_agent_runtime.Common.Int.{ℤ, pos, negsuc, pos_part, ltb_ℤ, ◌+ℤ◌}
use production_agent_runtime.Models.{not_positive}
use production_agent_runtime.Common.Exec.{ok}
use production_agent_runtime.Config.{
  RuntimeConfig, RetryConfig, validate_runtime, validate_retry, AppConfig, validate,
}

-- The run registry has room for every active and queued run, and no limit is zero.
pub record IsRoomy (c : RuntimeConfig) : Type 0 where
  pub active : 0 < pos_part c.max_concurrency
  pub queued : 0 < pos_part c.queue_capacity
  pub steps : 0 < pos_part c.max_agent_steps
  pub history : 0 < pos_part c.history_messages
  pub audit : 0 < pos_part c.audit_capacity
  pub room : pos_part c.max_concurrency + pos_part c.queue_capacity ≤ pos_part c.max_run_records

room_of :
    (active queued records : ℤ)
    → not_positive active ≡ false
    → not_positive queued ≡ false
    → ltb_ℤ records (active +ℤ queued) ≡ false
    → pos_part active + pos_part queued ≤ pos_part records
unfolding ◌+ℤ◌
room_of (pos a) (pos q) (pos r) ha hq h = ground arith
room_of (pos a) (pos q) (negsuc r) ha hq h = ground arith
room_of (negsuc a) q r ha hq h = ground arith
room_of (pos a) (negsuc q) r ha hq h = ground arith

validate_runtime-IsRoomy : (c : RuntimeConfig) → validate_runtime c ≡ ok tt → IsRoomy c
unfolding validate_runtime
validate_runtime-IsRoomy c h = record {
  active = ground arith;
  queued = ground arith;
  steps = ground arith;
  history = ground arith;
  audit = ground arith;
  room =
      room_of c.max_concurrency c.queue_capacity c.max_run_records (ground arith) (ground arith)
        (ground arith);
}

-- The delays of the retries are ordered, and at least one attempt is made.
pub record IsOrdered (c : RetryConfig) : Type 0 where
  pub attempts : 0 < pos_part c.max_attempts
  pub delays : pos_part c.base_delay ≤ pos_part c.max_delay
  pub jitter : pos_part c.jitter_ratio ≤ 1_000_000

validate_retry-IsOrdered : (c : RetryConfig) → validate_retry c ≡ ok tt → IsOrdered c
unfolding validate_retry
validate_retry-IsOrdered c h = record {
  attempts = ground arith;
  delays = ground arith;
  jitter = ground arith;
}

pub validate_lem : (c : AppConfig) → validate c ≡ ok tt → IsRoomy c.runtime × IsOrdered c.retry
unfolding validate
validate_lem c h = (
  validate_runtime-IsRoomy c.runtime (ground arith),
  validate_retry-IsOrdered c.retry (ground arith),
)
