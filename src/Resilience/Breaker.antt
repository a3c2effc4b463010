-- ===== src/Resilience/Breaker.antt =====
-- CircuitBreaker of llm/resilience.py. Each method runs under the breaker's lock, so it is one step.
pub mod Invariant
use production_agent_runtime.Common.{
  ℕ, ◌+◌, ◌-◌, ◌≡◌, Bool, true, false, ◌||◌, Option, none, some, text, leb, ltb, if◌then◌else◌,
}
use production_agent_runtime.Common.Int.{pos_part}
use production_agent_runtime.Common.Exec.{Exec, Result, ok, err, circuit_open_error, ◌>>=◌, ◌>>◌}
use production_agent_runtime.Config.{CircuitBreakerConfig, validate_circuit_breaker}

pub data BreakerState : Type 0 where
  closed open_circuit half_open : BreakerState

pub record Breaker : Type 0 where
  pub failure_threshold : ℕ
  pub recovery_timeout : ℕ
  pub half_open_max_calls : ℕ
  pub state : BreakerState
  pub failure_count : ℕ
  pub opened_at : Option ℕ
  pub half_open_calls : ℕ

abbrev make : CircuitBreakerConfig → Result (Unit {0}) → Result Breaker
make config (err e) = err e
make config (ok u) = ok (record {
  failure_threshold = pos_part config.failure_threshold;
  recovery_timeout = pos_part config.recovery_timeout;
  half_open_max_calls = pos_part config.half_open_max_calls;
  state = closed;
  failure_count = 0;
  opened_at = none;
  half_open_calls = 0;
})

-- CircuitBreaker(config)
unfoldable pub new_breaker : CircuitBreakerConfig → Result Breaker
new_breaker config = make config (validate_circuit_breaker config)

-- self._opened_at or 0.0
abbrev opened_or_zero : Option ℕ → ℕ
opened_or_zero none = 0
opened_or_zero (some t) = t

-- `elapsed < recovery_timeout_seconds`, with the subtraction moved to the other side
abbrev is_cooling : ℕ → Breaker → Bool
is_cooling now b = ltb now (opened_or_zero b.opened_at + b.recovery_timeout)

-- the first `if` of `before_call`
unfoldable pub recover : BreakerState → ℕ → Exec Breaker Unit
recover open_circuit now b =
    if is_cooling now b
    then (err (circuit_open_error (text "circuit breaker is open")), b)
    else (ok tt, record b { state = half_open; half_open_calls = 0 })
recover _ now b = (ok tt, b)

-- the second `if` of `before_call`
unfoldable pub probe : BreakerState → Exec Breaker Unit
probe half_open b =
    if leb b.half_open_max_calls b.half_open_calls
    then (err (circuit_open_error (text "circuit breaker half-open probe is busy")), b)
    else (ok tt, record b { half_open_calls = b.half_open_calls + 1 })
probe _ b = (ok tt, b)

unfoldable pub before_call : ℕ → Exec Breaker Unit
unfolding recover probe ◌>>=◌
before_call now = do (λ b. recover b.state now b); λ b. probe b.state b

unfoldable pub record_success : Breaker → Breaker
record_success b = record b {
  state = closed;
  failure_count = 0;
  opened_at = none;
  half_open_calls = 0;
}

abbrev pub is_half_open : BreakerState → Bool
is_half_open half_open = true
is_half_open _ = false

unfoldable pub record_failure : ℕ → Breaker → Breaker
record_failure now b =
    let counted = record b { failure_count = b.failure_count + 1 } in
    if is_half_open b.state || leb b.failure_threshold (b.failure_count + 1)
    then record counted { state = open_circuit; opened_at = some now; half_open_calls = 0 }
    else counted

-- `-` stops at 0, as `max(0, calls - 1)` does
unfoldable pub release_probe : Breaker → Breaker
release_probe b =
    if is_half_open b.state then record b { half_open_calls = b.half_open_calls - 1 } else b
