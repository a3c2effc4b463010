-- ===== src/Config.antt =====
-- src/agent_runtime/config.py: the five sections of the configuration and their validation. A float
-- is a whole number in a fixed unit: seconds are clock ticks, tokens and ratios are millionths.
pub mod Expand
pub mod Missing
pub mod Load
pub mod Loaded
pub mod Valid
use production_agent_runtime.Common.{
  ℕ, suc, ◌+◌, ◌*◌, Bool, true, false, ◌||◌, ◌&&◌, not, Text, text, text_eq, strip, is_blank, List,
  [], ◌∷◌, Option, none, some, if◌then◌else◌, leb, ltb,
}
use production_agent_runtime.Common.Strings.{starts_with}
use production_agent_runtime.Common.Dict
use production_agent_runtime.Common.Dict.{Dict}
use production_agent_runtime.Common.Int.{ℤ, pos, negsuc, pos_part, neg_part, ltb_ℤ, leb_ℤ, ◌+ℤ◌}
use production_agent_runtime.Common.Exec.{Result, ok, err, configuration_error}
use production_agent_runtime.Common.Exec.Results.{◌>>◌}
use production_agent_runtime.Models.{is_negative, not_positive}

pub record RetryConfig : Type 0 where
  pub max_attempts : ℤ
  pub base_delay : ℤ
  pub max_delay : ℤ
  pub jitter_ratio : ℤ  -- millionths

pub record RateLimitConfig : Type 0 where
  pub capacity : ℤ  -- millionths of a token
  pub refill_rate : ℤ  -- millionths of a token in a clock tick

pub record CircuitBreakerConfig : Type 0 where
  pub failure_threshold : ℤ
  pub recovery_timeout : ℤ
  pub half_open_max_calls : ℤ

pub record ProviderConfig : Type 0 where
  pub backend : Text
  pub base_url : Text
  pub model : Text
  pub api_key_env : Text
  pub timeout : ℤ
  pub temperature : ℤ
  pub max_tokens : ℤ
  pub mock_delay : ℤ

pub record RuntimeConfig : Type 0 where
  pub max_concurrency : ℤ
  pub queue_capacity : ℤ
  pub queue_retry_after : ℤ
  pub thread_workers : ℤ
  pub max_agent_steps : ℤ
  pub tool_timeout : ℤ
  pub run_timeout : ℤ
  pub run_retention : ℤ
  pub max_run_records : ℤ
  pub history_messages : ℤ
  pub audit_capacity : ℤ

pub record AppConfig : Type 0 where
  pub provider : ProviderConfig
  pub retry : RetryConfig
  pub rate_limit : RateLimitConfig
  pub circuit_breaker : CircuitBreakerConfig
  pub runtime : RuntimeConfig

abbrev pub reject : Text → Result (Unit {0})
reject message = err (configuration_error message)

unfoldable pub validate_retry : RetryConfig → Result (Unit {0})
validate_retry c =
    if not_positive c.max_attempts
    then reject (text "retry.max_attempts must be positive")
    else if not (leb_ℤ (pos 0) c.base_delay && leb_ℤ c.base_delay c.max_delay)
    then reject (text "retry delays must satisfy 0 <= base <= max")
    else if not (leb_ℤ (pos 0) c.jitter_ratio && leb_ℤ c.jitter_ratio (pos 1_000_000))
    then reject (text "retry.jitter_ratio must be in [0, 1]")
    else ok tt

unfoldable pub validate_rate_limit : RateLimitConfig → Result (Unit {0})
validate_rate_limit c =
    if not_positive c.capacity || not_positive c.refill_rate
    then reject (text "rate limit capacity and refill rate must be positive")
    else ok tt

-- `min(values) <= 0`
abbrev pub any_not_positive : List ℤ → Bool
any_not_positive [] = false
any_not_positive (v ∷ vs) = not_positive v || any_not_positive vs

unfoldable pub validate_circuit_breaker : CircuitBreakerConfig → Result (Unit {0})
validate_circuit_breaker c =
    if any_not_positive (c.failure_threshold ∷ c.half_open_max_calls ∷ [])
    then reject (text "circuit breaker counts must be positive")
    else if is_negative c.recovery_timeout
    then reject (text "circuit breaker recovery timeout must be non-negative")
    else ok tt

unfoldable pub validate_provider : ProviderConfig → Result (Unit {0})
unfolding starts_with
validate_provider c =
    if not (text_eq c.backend (text "mock") || text_eq c.backend (text "openai_compatible"))
    then reject (text "provider.backend must be mock or openai_compatible")
    else if text_eq c.backend (text "openai_compatible")
        && not (starts_with c.base_url (text "http://") || starts_with c.base_url (text "https://"))
    then reject (text "provider.base_url must be an HTTP(S) URL")
    else if is_blank (strip c.model) || not_positive c.timeout || not_positive c.max_tokens
    then reject (text "provider model, timeout, and max_tokens are invalid")
    else if is_negative c.temperature || is_negative c.mock_delay
    then reject (text "provider temperatures and delays must be non-negative")
    else ok tt

unfoldable pub validate_runtime : RuntimeConfig → Result (Unit {0})
unfolding ◌+ℤ◌
validate_runtime c =
    if any_not_positive (
        c.max_concurrency ∷ c.queue_capacity ∷ c.queue_retry_after ∷ c.thread_workers
        ∷ c.max_agent_steps ∷ c.max_run_records ∷ c.history_messages ∷ c.audit_capacity ∷ [])
      || not_positive c.tool_timeout
      || not_positive c.run_timeout
      || not_positive c.run_retention
    then reject (text "runtime limits and timeouts must be positive")
    else if ltb_ℤ c.max_run_records (c.max_concurrency +ℤ c.queue_capacity)
    then reject (text "runtime.max_run_records must cover active and queued runs")
    else ok tt

-- AppConfig.validate
unfoldable pub validate : AppConfig → Result (Unit {0})
validate c = do
  validate_provider c.provider
  validate_retry c.retry
  validate_rate_limit c.rate_limit
  validate_circuit_breaker c.circuit_breaker
  validate_runtime c.runtime
