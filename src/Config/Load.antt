-- ===== src/Config/Load.antt =====
-- `from_dict`, `_from_mapping` and `load` of config.py. A field's value is read as a number in the
-- model's unit, or as a text; what Python shows of a list of keys is a parameter too.
use production_agent_runtime.Common.{
  Bool, false, ◌||◌, Option, none, some, List, [], ◌∷◌, ◌++◌, Text, text, text_eq, keep, not,
}
use production_agent_runtime.Common.Int.{ℤ}
use production_agent_runtime.Common.Sorting.{sort, text_leb}
use production_agent_runtime.Common.Json
use production_agent_runtime.Common.Json.{Json, number, string, object, Fields, end, keys}
use production_agent_runtime.Common.Exec.{Result, ok, err, configuration_error}
use production_agent_runtime.Common.Exec.Results.{◌>>=◌}
use production_agent_runtime.Config.{
  RetryConfig, RateLimitConfig, CircuitBreakerConfig, ProviderConfig, RuntimeConfig, AppConfig,
  validate,
}
use production_agent_runtime.Config.Expand.{expand_env}

-- a count; seconds in clock ticks; a float in millionths; tokens a second in the model's unit
pub record Reading : Type 0 where
  pub count : Json → ℤ
  pub seconds : Json → ℤ
  pub millionths : Json → ℤ
  pub rate : Json → ℤ
  pub as_text : Json → Text
  pub show_keys : List Text → Text

unfoldable pub is_among : List Text → Text → Bool
is_among [] key = false
is_among (x ∷ xs) key = text_eq x key || is_among xs key

-- set(raw) - allowed
unfoldable pub unknown_keys : List Text → Fields → List Text
unfolding is_among
unknown_keys allowed fields = keep (λ key. not (is_among allowed key)) (keys fields)

unfoldable pub refuse_unknown : Reading → Text → List Text → Fields → Result Fields
refuse_unknown reading what [] fields = ok fields
refuse_unknown reading what (key ∷ more) fields = err (
    configuration_error (
      text "unknown "
      ++ (what ++ (text " keys: " ++ reading.show_keys (sort text_leb (key ∷ more))))))

-- the tests of `_from_mapping`
unfoldable pub from_mapping : Reading → Text → List Text → Json → Result Fields
from_mapping reading model allowed (object fields) =
    refuse_unknown reading model (unknown_keys allowed fields) fields
from_mapping reading model allowed raw =
    err (configuration_error (model ++ text " config must be an object"))

abbrev or_value : Option Json → Json → Json
or_value none default = default
or_value (some v) default = v

-- a keyword argument, or the default of the field
abbrev given : Fields → Text → Json → Json
given fields key default = or_value (Json.get fields key) default

module _ (reading : Reading) where
  abbrev numeral : (Json → ℤ) → Fields → Text → Text → ℤ
  numeral read fields key default = read (given fields key (number default))

  abbrev words : Fields → Text → Text → Text
  words fields key default = reading.as_text (given fields key (string default))

  unfoldable pub retry_of : Fields → RetryConfig
  retry_of fields = record {
    max_attempts = numeral reading.count fields (text "max_attempts") (text "4");
    base_delay = numeral reading.seconds fields (text "base_delay_seconds") (text "0.25");
    max_delay = numeral reading.seconds fields (text "max_delay_seconds") (text "8.0");
    jitter_ratio = numeral reading.millionths fields (text "jitter_ratio") (text "0.25");
  }

  unfoldable pub rate_limit_of : Fields → RateLimitConfig
  rate_limit_of fields = record {
    capacity = numeral reading.millionths fields (text "capacity") (text "20.0");
    refill_rate = numeral reading.rate fields (text "refill_per_second") (text "10.0");
  }

  unfoldable pub circuit_breaker_of : Fields → CircuitBreakerConfig
  circuit_breaker_of fields = record {
    failure_threshold = numeral reading.count fields (text "failure_threshold") (text "5");
    recovery_timeout =
        numeral reading.seconds fields (text "recovery_timeout_seconds") (text "30.0");
    half_open_max_calls = numeral reading.count fields (text "half_open_max_calls") (text "1");
  }

  unfoldable pub provider_of : Fields → ProviderConfig
  provider_of fields = record {
    backend = words fields (text "backend") (text "mock");
    base_url = words fields (text "base_url") (text "http://127.0.0.1:8001/v1");
    model = words fields (text "model") (text "mock-agent-model");
    api_key_env = words fields (text "api_key_env") (text "AGENT_LLM_API_KEY");
    timeout = numeral reading.seconds fields (text "timeout_seconds") (text "60.0");
    temperature = numeral reading.millionths fields (text "temperature") (text "0.0");
    max_tokens = numeral reading.count fields (text "max_tokens") (text "1024");
    mock_delay = numeral reading.seconds fields (text "mock_delay_seconds") (text "0.0");
  }

  unfoldable pub runtime_of : Fields → RuntimeConfig
  runtime_of fields = record {
    max_concurrency = numeral reading.count fields (text "max_concurrency") (text "10");
    queue_capacity = numeral reading.count fields (text "queue_capacity") (text "100");
    queue_retry_after = numeral reading.count fields (text "queue_retry_after_seconds") (text "1");
    thread_workers = numeral reading.count fields (text "thread_workers") (text "10");
    max_agent_steps = numeral reading.count fields (text "max_agent_steps") (text "8");
    tool_timeout = numeral reading.seconds fields (text "tool_timeout_seconds") (text "30.0");
    run_timeout = numeral reading.seconds fields (text "run_timeout_seconds") (text "300.0");
    run_retention = numeral reading.seconds fields (text "run_retention_seconds") (text "3600.0");
    max_run_records = numeral reading.count fields (text "max_run_records") (text "10000");
    history_messages = numeral reading.count fields (text "history_messages") (text "20");
    audit_capacity = numeral reading.count fields (text "audit_capacity") (text "10000");
  }

abbrev pub retry_keys : List Text
retry_keys =
    text "max_attempts"
    ∷ text "base_delay_seconds"
    ∷ text "max_delay_seconds"
    ∷ text "jitter_ratio"
    ∷ []

abbrev pub rate_limit_keys : List Text
rate_limit_keys = text "capacity" ∷ text "refill_per_second" ∷ []

abbrev pub circuit_breaker_keys : List Text
circuit_breaker_keys =
    text "failure_threshold" ∷ text "recovery_timeout_seconds" ∷ text "half_open_max_calls" ∷ []

abbrev pub provider_keys : List Text
provider_keys =
    text "backend"
    ∷ text "base_url"
    ∷ text "model"
    ∷ text "api_key_env"
    ∷ text "timeout_seconds"
    ∷ text "temperature"
    ∷ text "max_tokens"
    ∷ text "mock_delay_seconds"
    ∷ []

abbrev pub runtime_keys : List Text
runtime_keys =
    text "max_concurrency"
    ∷ text "queue_capacity"
    ∷ text "queue_retry_after_seconds"
    ∷ text "thread_workers"
    ∷ text "max_agent_steps"
    ∷ text "tool_timeout_seconds"
    ∷ text "run_timeout_seconds"
    ∷ text "run_retention_seconds"
    ∷ text "max_run_records"
    ∷ text "history_messages"
    ∷ text "audit_capacity"
    ∷ []

abbrev pub sections : List Text
sections =
    text "provider"
    ∷ text "retry"
    ∷ text "rate_limit"
    ∷ text "circuit_breaker"
    ∷ text "runtime"
    ∷ []

-- `from_dict`
unfoldable pub from_dict : Reading → Fields → Result AppConfig
from_dict reading raw = do
  _ ← refuse_unknown reading (text "top-level") (unknown_keys sections raw) raw
  provider ←
      from_mapping reading (text "ProviderConfig") provider_keys
        (given raw (text "provider") (object end))
  retry ←
      from_mapping reading (text "RetryConfig") retry_keys (given raw (text "retry") (object end))
  rate_limit ←
      from_mapping reading (text "RateLimitConfig") rate_limit_keys
        (given raw (text "rate_limit") (object end))
  circuit_breaker ←
      from_mapping reading (text "CircuitBreakerConfig") circuit_breaker_keys
        (given raw (text "circuit_breaker") (object end))
  runtime ←
      from_mapping reading (text "RuntimeConfig") runtime_keys
        (given raw (text "runtime") (object end))
  let config : AppConfig = record {
    provider = provider_of reading provider;
    retry = retry_of reading retry;
    rate_limit = rate_limit_of reading rate_limit;
    circuit_breaker = circuit_breaker_of reading circuit_breaker;
    runtime = runtime_of reading runtime;
  }
  validate config >>= λ u. ok config

-- what a file holds: none if it cannot be read or decoded, with the message
pub data Source : Type 0 where
  unreadable : Text → Source
  decoded : Json → Source

abbrev pub from_expanded : Reading → Result Json → Result AppConfig
from_expanded reading (ok (object fields)) = from_dict reading fields
from_expanded reading (ok v) = err (configuration_error (text "config root must be an object"))
from_expanded reading (err e) = err e

-- `load`
unfoldable pub load : Reading → (Text → Option Text) → Text → Source → Result AppConfig
load reading environ path (unreadable message) =
    err (configuration_error (text "failed to load config " ++ (path ++ (text ": " ++ message))))
load reading environ path (decoded (object fields)) =
    from_expanded reading (expand_env environ (object fields))
load reading environ path (decoded v) =
    err (configuration_error (text "config root must be an object"))
