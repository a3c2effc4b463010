-- ===== src/Examples/Limits.antt =====
-- A rate limit that is accepted and never grants a token.
use production_agent_runtime.Common.{ℕ, ◌≡◌, refl, some, none, [], text, arith}
use production_agent_runtime.Common.Int.{pos}
use production_agent_runtime.Common.Exec.{err, value_error}
use production_agent_runtime.Config.{RateLimitConfig, RetryConfig, validate_rate_limit}
use production_agent_runtime.Resilience.TokenBucket.{TokenBucket, new_bucket}
use production_agent_runtime.Resilience.Breaker.{closed}
use production_agent_runtime.Resilience.Client.{Client, Attempt, complete}
use production_agent_runtime.Resilience.Client.Starved.{complete-starved}

abbrev half_token : RateLimitConfig
half_token = record { capacity = pos 500_000; refill_rate = pos 1 }

abbrev small_bucket : TokenBucket
small_bucket = record { capacity = 500_000; refill_rate = 1; tokens = 500_000; updated_at = 7 }

abbrev one_retry : RetryConfig
one_retry = record {
  max_attempts = pos 2;
  base_delay = pos 1;
  max_delay = pos 1;
  jitter_ratio = pos 0;
}

abbrev attempt_at : ℕ → Attempt
attempt_at n = record {
  rounds = [];
  admitted_at = n;
  during = λ s. s;
  answer = err (value_error []);
  failed_at = n;
  random = 0;
}

abbrev client : Client
client = record {
  limiter = small_bucket;
  breaker = record {
    failure_threshold = 1;
    recovery_timeout = 1;
    half_open_max_calls = 1;
    state = closed;
    failure_count = 0;
    opened_at = none;
    half_open_calls = 0;
  };
  metrics = [];
  calls = 0;
  sleeps = [];
}

complete-starved_example :
    ((complete one_retry attempt_at client).0
      ≡ some (err (value_error (text "requested tokens must be in (0, capacity]"))))
    × ((complete one_retry attempt_at client).1.calls ≡ 0)
unfolding new_bucket validate_rate_limit
complete-starved_example =
    complete-starved half_token 7 one_retry attempt_at client refl (omega arith) (omega arith)
