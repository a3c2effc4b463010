-- ===== src/Examples/Resilience.antt =====
-- The rate limiter, the circuit breaker and the resilient client on concrete inputs, and a
-- configuration that is accepted.
use production_agent_runtime.Common.{
  ℕ, zero, suc, ◌+◌, ◌-◌, ◌*◌, ◌≤◌, ◌≡◌, refl, none, some, List, [], ◌∷◌, text, length, ltb, min,
  if◌then◌else◌, arith,
}
use production_agent_runtime.Common.Int.{pos}
use production_agent_runtime.Common.Exec.{Result, ok, err, transient_llm_error}
use production_agent_runtime.Models.{LlmResponse}
use production_agent_runtime.Config.{RetryConfig, CircuitBreakerConfig, RuntimeConfig, AppConfig}
use production_agent_runtime.Resilience.TokenBucket.{
  TokenBucket, acquire, granted, refill, wait_ticks,
}
use production_agent_runtime.Resilience.TokenBucket.Rate.{
  Request, serve, serve-rate, acquire_after_wait,
}
use production_agent_runtime.Resilience.Breaker.{Breaker, closed, open_circuit, half_open}
use production_agent_runtime.Resilience.Breaker.Invariant.{
  fail_all, fail_all-trips, admitted, open-recovers,
}
use production_agent_runtime.Resilience.Client.{Client, Attempt, complete}
use production_agent_runtime.Resilience.Client.Attempts.{max_attempts, complete-calls-le}

abbrev bucket : TokenBucket
bucket = record { capacity = 2_000_000; refill_rate = 500_000; tokens = 0; updated_at = 10 }

abbrev requests : List Request
requests =
    record { wanted = 1_000_000; now = 11 }
    ∷ record { wanted = 1_000_000; now = 14 }
    ∷ record { wanted = 1_000_000; now = 14 }
    ∷ []

serve-rate_example :
    let (total, b') = serve requests bucket in
    total + b'.tokens ≤ bucket.tokens + (b'.updated_at - bucket.updated_at) * bucket.refill_rate
serve-rate_example = serve-rate requests bucket (omega arith, (omega arith, (omega arith, tt)))

acquire_after_wait_example : (acquire 1_000_000 (10 ∷ 12 ∷ []) bucket).0 ≡ granted
unfolding wait_ticks refill
acquire_after_wait_example =
    acquire_after_wait 1_000_000 10 12 bucket (omega arith) (omega arith) (omega arith)
      (omega arith)

abbrev breaker_config : CircuitBreakerConfig
breaker_config = record {
  failure_threshold = pos 2;
  recovery_timeout = pos 30;
  half_open_max_calls = pos 1;
}

abbrev fresh_breaker : Breaker
fresh_breaker = record {
  failure_threshold = 2;
  recovery_timeout = 30;
  half_open_max_calls = 1;
  state = closed;
  failure_count = 0;
  opened_at = none;
  half_open_calls = 0;
}

abbrev open_breaker : Breaker
open_breaker = record fresh_breaker { state = open_circuit; failure_count = 2; opened_at = some 5 }

abbrev busy_breaker : Breaker
busy_breaker = record fresh_breaker {
  state = half_open;
  failure_count = 2;
  opened_at = some 5;
  half_open_calls = 1;
}

abbrev failure_times : List ℕ
failure_times = 3 ∷ 5 ∷ 6 ∷ []

abbrev later_times : List ℕ
later_times = 36 ∷ 37 ∷ []

abbrev call_times : List ℕ
call_times = 35 ∷ later_times

fail_all-trips_example : (fail_all failure_times fresh_breaker).state ≡ (
    if ltb (fresh_breaker.failure_count + length failure_times) fresh_breaker.failure_threshold
    then closed
    else open_circuit)
fail_all-trips_example = fail_all-trips failure_times fresh_breaker refl (omega arith)

open-recovers_example :
    admitted call_times open_breaker ≡ min (length call_times) open_breaker.half_open_max_calls
open-recovers_example =
    open-recovers 35 later_times 5 open_breaker refl refl (omega arith) (omega arith)

abbrev retry_config : RetryConfig
retry_config = record {
  max_attempts = pos 3;
  base_delay = pos 200;
  max_delay = pos 2_000;
  jitter_ratio = pos 200_000;
}

abbrev response : LlmResponse
response = record {
  content = text "done";
  model = text "m";
  prompt_tokens = none;
  completion_tokens = none;
  finish_reason = none;
}

-- a transient error first, and an answer from then on
abbrev answers : ℕ → Result LlmResponse
answers zero = err (transient_llm_error (text "busy"))
answers (suc n) = ok response

abbrev environment : ℕ → Attempt
environment n = record {
  rounds = ((λ s. s), 20 + n) ∷ [];
  admitted_at = 20 + n;
  during = λ s. s;
  answer = answers n;
  failed_at = 21 + n;
  random = 500_000;
}

abbrev client : Client
client = record {
  limiter = record bucket { tokens = 2_000_000 };
  breaker = fresh_breaker;
  metrics = [];
  calls = 0;
  sleeps = [];
}

complete-calls-le_example :
    (complete retry_config environment client).1.calls ≤ max_attempts retry_config
complete-calls-le_example = complete-calls-le retry_config environment client (omega arith)

abbrev runtime_config : RuntimeConfig
runtime_config = record {
  max_concurrency = pos 4;
  queue_capacity = pos 8;
  queue_retry_after = pos 1;
  thread_workers = pos 4;
  max_agent_steps = pos 6;
  tool_timeout = pos 5_000;
  run_timeout = pos 60_000;
  run_retention = pos 3_600_000;
  max_run_records = pos 100;
  history_messages = pos 20;
  audit_capacity = pos 1_000;
}

abbrev app_config : AppConfig
app_config = record {
  provider = record {
    backend = text "mock";
    base_url = [];
    model = text "mock-agent";
    api_key_env = text "KEY";
    timeout = pos 30_000;
    temperature = pos 200_000;
    max_tokens = pos 1_024;
    mock_delay = pos 10;
  };
  retry = retry_config;
  rate_limit = record { capacity = pos 20_000_000; refill_rate = pos 10_000 };
  circuit_breaker = breaker_config;
  runtime = runtime_config;
}
