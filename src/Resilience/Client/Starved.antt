-- ===== src/Resilience/Client/Starved.antt =====
-- A rate limiter that cannot hold one token.
use production_agent_runtime.Common.{ℕ, [], zero, suc, ◌<◌, ◌≡◌, refl, true, some, text, arith}
use production_agent_runtime.Common.Int.{pos_part}
use production_agent_runtime.Common.Exec.{ok, err, value_error}
use production_agent_runtime.Config.{RateLimitConfig, RetryConfig, validate_rate_limit}
use production_agent_runtime.Resilience.TokenBucket.{TokenBucket, new_bucket, is_refused}
use production_agent_runtime.Resilience.Client.{
  Client, Attempt, one_token, attempt, attempts, complete,
}

new_bucket-capacity :
    (config : RateLimitConfig) (now : ℕ) (b : TokenBucket)
    → new_bucket config now ≡ ok b
    → b.capacity ≡ pos_part config.capacity
unfolding new_bucket validate_rate_limit
new_bucket-capacity config now b h = ground arith

attempts-starved :
    (retry : RetryConfig) (environment : ℕ → Attempt) (left i : ℕ) (c : Client)
    → is_refused one_token c.limiter ≡ true
    → attempts retry environment i (suc left) c
      ≡ (some (err (value_error (text "requested tokens must be in (0, capacity]"))), c)
unfolding attempts attempt
attempts-starved retry environment left i c refused = rw refused refl

starved : (n : ℕ) (b : TokenBucket) → b.capacity ≡ n → n < one_token → is_refused one_token b ≡ true
unfolding is_refused
starved n b e h = ground arith

-- A client whose rate limiter was made from an accepted configuration with a capacity below one
-- token, and that is allowed an attempt, answers every request with ValueError and never calls the
-- provider.
pub complete-starved :
    (config : RateLimitConfig) (now : ℕ) (retry : RetryConfig) (environment : ℕ → Attempt)
    (c : Client)
    → new_bucket config now ≡ ok c.limiter
    → pos_part config.capacity < one_token
    → 0 < pos_part retry.max_attempts
    → ((complete retry environment c).0
        ≡ some (err (value_error (text "requested tokens must be in (0, capacity]"))))
      × ((complete retry environment c).1.calls ≡ 0)
unfolding complete
complete-starved config now retry environment c made small allowed =
    go (pos_part retry.max_attempts) allowed
  where
    start : Client
    start = record c { calls = 0; sleeps = [] }

    go :
        (n : ℕ)
        → 0 < n
        → ((attempts retry environment 0 n start).0
            ≡ some (err (value_error (text "requested tokens must be in (0, capacity]"))))
          × ((attempts retry environment 0 n start).1.calls ≡ 0)
    go zero h = elim h [ ]
    go (suc n) h =
        rw
          (attempts-starved retry environment n 0 start (
            starved (pos_part config.capacity) start.limiter
              (new_bucket-capacity config now c.limiter made) small))
          (refl, refl)
