-- ===== src/Resilience/Client.antt =====
-- ResilientLLMClient of llm/resilience.py. While a request waits, other requests use the same
-- limiter, breaker and metrics: what they do there is part of the request's environment.
pub mod Attempts
pub mod Pauses
pub mod Starved
use production_agent_runtime.Common.{
  ℕ, zero, suc, ◌+◌, ◌-◌, ◌*◌, ◌/◌, ◌^◌, ◌≡◌, Bool, true, false, Option, none, some, List, [], ◌∷◌,
  ◌++◌, Text, text, min, leb, ltb, if◌then◌else◌,
}
use production_agent_runtime.Common.Int.{pos_part}
use production_agent_runtime.Common.Exec.{
  Exception, Result, ok, err, transient_llm_error, circuit_open_error, cancelled_error, value_error,
}
use production_agent_runtime.Metrics.{Metrics, increment}
use production_agent_runtime.Models.{LlmResponse}
use production_agent_runtime.Config.{RetryConfig}
use production_agent_runtime.Resilience.TokenBucket.{TokenBucket, round, is_refused}
use production_agent_runtime.Resilience.Breaker.{
  Breaker, before_call, record_success, record_failure, release_probe,
}

-- `calls` counts the calls of the provider and `sleeps` lists the pauses of this request.
pub record Client : Type 0 where
  pub limiter : TokenBucket
  pub breaker : Breaker
  pub metrics : Metrics
  pub calls : ℕ
  pub sleeps : List ℕ

-- what is shared with the other requests
pub record Shared : Type 0 where
  pub limiter : TokenBucket
  pub breaker : Breaker
  pub metrics : Metrics

abbrev pub Others : Type 0
Others = Shared → Shared

-- what the other requests do during a suspension
unfoldable pub meanwhile : Others → Client → Client
meanwhile others c =
    let s = others (record { limiter = c.limiter; breaker = c.breaker; metrics = c.metrics }) in
    record c { limiter = s.limiter; breaker = s.breaker; metrics = s.metrics }

-- The environment of one attempt: a reading of the clock for each round of `acquire`, with what
-- happens before it; the clock in the breaker; the provider's answer; the random number.
pub record Attempt : Type 0 where
  pub rounds : List (Others × ℕ)
  pub admitted_at : ℕ
  pub during : Others
  pub answer : Result LlmResponse
  pub failed_at : ℕ
  pub random : ℕ  -- millionths

abbrev pub one_token : ℕ
one_token = 1_000_000

-- count one in the metric
unfoldable pub count : Text → Client → Client
count name c = record c { metrics = increment name c.metrics }

-- the loop of `limiter.acquire()`; false if the clock was read no further
unfoldable pub wait_token : List (Others × ℕ) → Client → Bool × Client
unfolding meanwhile
wait_token [] c = (false, c)
wait_token ((others, now) ∷ later) c =
    let c' = meanwhile others c in
    let (asleep, limiter) = round one_token now c'.limiter in
    let served = record c' { limiter = limiter } in
    let again = wait_token later served in elim asleep [ none ↦ (true, served) | some w ↦ again ]

-- min(max_delay, base_delay * 2 ** (attempt - 1)); `retries` is attempt - 1
unfoldable pub backoff : RetryConfig → ℕ → ℕ
backoff retry retries = min (pos_part retry.max_delay) (pos_part retry.base_delay * 2 ^ retries)

-- delay + delay * jitter_ratio * random(), rounded down
unfoldable pub pause : RetryConfig → ℕ → ℕ → ℕ
unfolding backoff
pause retry retries random =
    let delay = backoff retry retries in
    delay + delay * (pos_part retry.jitter_ratio * random) / 1_000_000_000_000

-- TransientLLMError and its subclass CircuitOpenError
abbrev pub is_transient : Exception → Bool
is_transient (transient_llm_error m) = true
is_transient (circuit_open_error m) = true
is_transient _ = false

abbrev pub is_cancelled : Exception → Bool
is_cancelled cancelled_error = true
is_cancelled _ = false

unfoldable pub on_success : Client → Client
unfolding count
on_success c = count (text "llm_success_total") (record c { breaker = record_success c.breaker })

-- `except TransientLLMError`, up to the test of the attempt
unfoldable pub on_transient : ℕ → Client → Client
unfolding count
on_transient now c =
    count (text "llm_transient_errors_total") (record c { breaker = record_failure now c.breaker })

-- `except Exception`
unfoldable pub on_permanent : Client → Client
unfolding count
on_permanent c =
    count (text "llm_permanent_errors_total") (record c { breaker = record_success c.breaker })

-- `except asyncio.CancelledError`
unfoldable pub on_cancelled : Client → Client
on_cancelled c = record c { breaker = release_probe c.breaker }

-- the sleep before the next attempt
unfoldable pub sleep_off : RetryConfig → ℕ → ℕ → Client → Client
unfolding count pause
sleep_off retry retries random c =
    let counted = count (text "llm_retries_total") c in
    record counted { sleeps = c.sleeps ++ pause retry retries random ∷ [] }

-- what the caller of `complete` gets: nothing yet, or the result
abbrev pub Completion : Type 0
Completion = Option (Result LlmResponse) × Client

-- The part of the loop's body behind the provider's answer. `left` is the number of attempts after
-- this one, and `next` continues with the next attempt.
unfoldable pub settle :
    RetryConfig → Attempt → ℕ → ℕ → Result LlmResponse → (Client → Completion) → Client → Completion
unfolding on_success on_transient on_permanent on_cancelled sleep_off
settle retry a retries left (ok response) next c = (some (ok response), on_success c)
settle retry a retries zero (err e) next c =
    if is_cancelled e
    then (some (err e), on_cancelled c)
    else if is_transient e
    then (some (err e), on_transient a.failed_at c)
    else (some (err e), on_permanent c)
settle retry a retries (suc left) (err e) next c =
    if is_cancelled e
    then (some (err e), on_cancelled c)
    else if is_transient e
    then next (sleep_off retry retries a.random (on_transient a.failed_at c))
    else (some (err e), on_permanent c)

-- the loop's body from the admitted call on
unfoldable pub call_provider :
    RetryConfig → Attempt → ℕ → ℕ → (Client → Completion) → Client → Completion
unfolding settle count meanwhile
call_provider retry a retries left next c =
    let counted = count (text "llm_attempts_total") c in
    settle retry a retries left a.answer next
      (meanwhile a.during (record counted { calls = c.calls + 1 }))

abbrev admit : Result (Unit {0}) → (Client → Completion) → Client → Completion
admit (err e) next c = (
  some (err e),
  record c { metrics = increment (text "circuit_open_rejections_total") c.metrics },
)
admit (ok u) next c = next c

-- the breaker's test, and the call
unfoldable pub guarded_call :
    RetryConfig → Attempt → ℕ → ℕ → (Client → Completion) → Client → Completion
unfolding call_provider
guarded_call retry a retries left next c =
    let (r, breaker) = before_call a.admitted_at c.breaker in
    admit r (call_provider retry a retries left next) (record c { breaker = breaker })

-- one attempt
unfoldable pub attempt : RetryConfig → Attempt → ℕ → ℕ → (Client → Completion) → Client → Completion
unfolding guarded_call wait_token
attempt retry a retries left next c =
    if is_refused one_token c.limiter
    then (some (err (value_error (text "requested tokens must be in (0, capacity]"))), c)
    else let (served, c') = wait_token a.rounds c in
      if served then guarded_call retry a retries left next c' else (none, c')

-- the loop, from the attempt number `retries` + 1 on; `environment` has the attempts
unfoldable pub attempts : RetryConfig → (ℕ → Attempt) → ℕ → ℕ → Client → Completion
unfolding attempt
attempts retry environment retries zero c = (none, c)
attempts retry environment retries (suc left) c =
    attempt retry (environment retries) retries left
      (λ c'. attempts retry environment (suc retries) left c') c

-- ResilientLLMClient.complete. `retry.validate()` makes max_attempts positive.
unfoldable pub complete : RetryConfig → (ℕ → Attempt) → Client → Completion
unfolding attempts
complete retry environment c =
    attempts retry environment 0 (pos_part retry.max_attempts) (record c { calls = 0; sleeps = [] })
