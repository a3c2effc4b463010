-- ===== src/Resilience/TokenBucket.antt =====
-- TokenBucket of llm/resilience.py. Amounts are millionths of a token, times are clock ticks. The
-- body of the loop runs under the bucket's lock, so it is one step; callers interleave between steps.
pub mod Rate
use production_agent_runtime.Common.{
  ℕ, ◌+◌, ◌-◌, ◌*◌, ◌/◌, ◌≡◌, Bool, ◌||◌, Option, none, some, List, [], ◌∷◌, text, min, leb, ltb,
  if◌then◌else◌,
}
use production_agent_runtime.Common.Int.{pos_part}
use production_agent_runtime.Common.Exec.{Exception, Result, ok, err, value_error}
use production_agent_runtime.Config.{RateLimitConfig, validate_rate_limit}

pub record TokenBucket : Type 0 where
  pub capacity : ℕ
  pub refill_rate : ℕ
  pub tokens : ℕ
  pub updated_at : ℕ

abbrev make : RateLimitConfig → ℕ → Result (Unit {0}) → Result TokenBucket
make config now (err e) = err e
make config now (ok u) = ok (record {
  capacity = pos_part config.capacity;
  refill_rate = pos_part config.refill_rate;
  tokens = pos_part config.capacity;
  updated_at = now;
})

-- TokenBucket(config, clock); `now` is what `clock()` shows
unfoldable pub new_bucket : RateLimitConfig → ℕ → Result TokenBucket
new_bucket config now = make config now (validate_rate_limit config)

-- `-` stops at 0, as `max(0.0, now - self._updated_at)` does
unfoldable pub refill : ℕ → TokenBucket → TokenBucket
refill now b = record b {
  tokens = min b.capacity (b.tokens + (now - b.updated_at) * b.refill_rate);
  updated_at = now;
}

-- the least number of ticks in which at least the missing amount flows in
unfoldable pub wait_ticks : ℕ → ℕ → ℕ
wait_ticks missing rate = (missing + (rate - 1)) / rate

-- one round of the loop: `none` grants the tokens, `some w` sleeps for w ticks
unfoldable pub round : ℕ → ℕ → TokenBucket → Option ℕ × TokenBucket
unfolding refill wait_ticks
round wanted now b =
    let b' = refill now b in
    if leb wanted b'.tokens
    then (none, record b' { tokens = b'.tokens - wanted })
    else (some (wait_ticks (wanted - b'.tokens) b'.refill_rate), b')

-- the guard of `acquire`
unfoldable pub is_refused : ℕ → TokenBucket → Bool
is_refused wanted b = leb wanted 0 || ltb b.capacity wanted

pub data Acquired : Type 0 where
  granted : Acquired
  pending : Acquired  -- the clock was read no further, and the caller still waits
  refused : Exception → Acquired

-- the loop of `acquire`, over the clock readings that it makes
unfoldable pub rounds : ℕ → List ℕ → TokenBucket → Acquired × TokenBucket
unfolding round
rounds wanted [] b = (pending, b)
rounds wanted (now ∷ later) b =
    let (asleep, b') = round wanted now b in
    let again = rounds wanted later b' in elim asleep [ none ↦ (granted, b') | some w ↦ again ]

unfoldable pub acquire : ℕ → List ℕ → TokenBucket → Acquired × TokenBucket
unfolding rounds is_refused
acquire wanted readings b =
    if is_refused wanted b
    then (refused (value_error (text "requested tokens must be in (0, capacity]")), b)
    else rounds wanted readings b
