-- ===== src/Resilience/Client/Attempts.antt =====
-- What a request does: how often it calls the provider, how long it pauses, and what it returns.
use production_agent_runtime.Common.{
  ℕ, zero, suc, ◌+◌, ◌≤◌, ◌<◌, ◌≡◌, refl, Bool, true, false, Option, none, some, List, [], ◌∷◌,
  text, arith, if◌then◌else◌,
}
use production_agent_runtime.Common.Int.{pos_part}
use production_agent_runtime.Common.Exec.{
  Exception, Result, ok, err, circuit_open_error, value_error, transient_llm_error,
}
use production_agent_runtime.Models.{LlmResponse}
use production_agent_runtime.Config.{RetryConfig}
use production_agent_runtime.Resilience.TokenBucket.{is_refused, round}
use production_agent_runtime.Resilience.Breaker.{Breaker, before_call}
use production_agent_runtime.Resilience.Client.{
  Client, Others, Attempt, Completion, meanwhile, one_token, count, wait_token, is_transient,
  on_transient, sleep_off, settle, call_provider, admit, guarded_call, attempt, attempts, complete,
}

-- an answer that is retried
abbrev pub IsRetried : Result LlmResponse → Type 0
IsRetried r = (e : Exception) × (r ≡ err e) × (is_transient e ≡ true)

abbrev pub IsFinal : Result LlmResponse → Type 0
IsFinal r = (e : Exception) → r ≡ err e → is_transient e ≡ false

-- The ways in which `left` attempts from the number i on can go, with the result and the number
-- of calls of the provider.
pub data Story (environment : ℕ → Attempt) : ℕ → ℕ → Option (Result LlmResponse) → ℕ → Type 0 where
  waiting_for_token : {i left : ℕ} → Story environment i (suc left) none 0
  never_enough :
      {i left : ℕ} (e : Exception)
      → e ≡ value_error (text "requested tokens must be in (0, capacity]")
      → Story environment i (suc left) (some (err e)) 0
  rejected :
      {i left : ℕ} (e : Exception) (b : Breaker) (now : ℕ)
      → (before_call now b).0 ≡ err e
      → Story environment i (suc left) (some (err e)) 0
  answered :
      {i left : ℕ} {r : Result LlmResponse}
      → (environment i).answer ≡ r
      → IsFinal r
      → Story environment i (suc left) (some r) 1
  exhausted :
      {i : ℕ} {r : Result LlmResponse}
      → (environment i).answer ≡ r
      → IsRetried r
      → Story environment i 1 (some r) 1
  retried :
      {i left n : ℕ} {result : Option (Result LlmResponse)}
      → IsRetried (environment i).answer
      → Story environment (suc i) (suc left) result n
      → Story environment i (suc (suc left)) result (suc n)

-- The provider is called at most once for each attempt.
Story-calls :
    {environment : ℕ → Attempt} {i left n : ℕ} {r : Option (Result LlmResponse)}
    → Story environment i left r n
    → n ≤ left
Story-calls waiting_for_token = omega arith
Story-calls (never_enough e p) = omega arith
Story-calls (rejected e b now p) = omega arith
Story-calls (answered p q) = omega arith
Story-calls (exhausted p q) = omega arith
Story-calls (retried p s) = omega (arith, Story-calls s)

-- A client that has called the provider n times since the state c.
abbrev Tells : (ℕ → Attempt) → ℕ → ℕ → Client → Completion → Type 0
Tells environment i left c done =
    (n : ℕ) × Story environment i left done.0 n × (done.1.calls ≡ c.calls + n)

abbrev after_round : Others → ℕ → Client → Client
after_round others now c =
    let c' = meanwhile others c in record c' { limiter = (round one_token now c'.limiter).1 }

wait_token-calls :
    (rounds : List (Others × ℕ)) (c : Client) → (wait_token rounds c).1.calls ≡ c.calls
unfolding wait_token
wait_token-calls [] c = refl
wait_token-calls ((others, now) ∷ later) c =
    ground (arith, wait_token-calls later (after_round others now c))

-- the next attempts, if there are any
abbrev Continues : (ℕ → Attempt) → ℕ → ℕ → (Client → Completion) → Type 0
Continues environment i zero next = Unit
Continues environment i (suc left) next = (d : Client) → Tells environment i (suc left) d (next d)

error-IsFinal : {e : Exception} → is_transient e ≡ false → IsFinal (err e)
error-IsFinal h f p = ground arith

Tells-if :
    {environment : ℕ → Attempt} {i left : ℕ} (c : Client) (b : Bool) (x y : Completion)
    → Tells environment i left c x
    → Tells environment i left c y
    → Tells environment i left c (if b then x else y)
Tells-if c true x y hx hy = hx
Tells-if c false x y hx hy = hy

module _ (retry : RetryConfig) (environment : ℕ → Attempt) (i : ℕ) where
  abbrev a : Attempt
  a = environment i

  -- the next attempts go on from the client after the pause
  go_on :
      (left : ℕ) (b c : Client) (e : Exception) (next : Client → Completion)
      → a.answer ≡ err e
      → is_transient e ≡ true
      → c.calls ≡ b.calls + 1
      → Continues environment (suc i) (suc left) next
      → Tells environment i
          (suc (suc left))
          b
          (next (sleep_off retry i a.random (on_transient a.failed_at c)))
  unfolding sleep_off on_transient
  go_on left b c e next p t k more =
      let d = sleep_off retry i a.random (on_transient a.failed_at c) in
      let (n, story, counted) = more d in (suc n, retried (e, p, t) story, omega arith)

  settle-Tells :
      (left : ℕ) (r : Result LlmResponse) (next : Client → Completion) (b c : Client)
      → a.answer ≡ r
      → c.calls ≡ b.calls + 1
      → Continues environment (suc i) left next
      → Tells environment i (suc left) b (settle retry a i left r next c)
  unfolding settle
  settle-Tells left (ok response) next b c p k more = (1, answered p (λ e q. cc), k)
  settle-Tells zero (err (transient_llm_error m)) next b c p k more =
      (1, exhausted p (transient_llm_error m, refl, refl), k)
  settle-Tells zero (err (circuit_open_error m)) next b c p k more =
      (1, exhausted p (circuit_open_error m, refl, refl), k)
  settle-Tells zero (err e) next b c p k more = (1, answered p (λ f q. ground arith), k)
  settle-Tells (suc left) (err (transient_llm_error m)) next b c p k more =
      go_on left b c (transient_llm_error m) next p refl k more
  settle-Tells (suc left) (err (circuit_open_error m)) next b c p k more =
      go_on left b c (circuit_open_error m) next p refl k more
  settle-Tells (suc left) (err e) next b c p k more = (1, answered p (λ f q. ground arith), k)

  admit-Tells :
      (left : ℕ) (next : Client → Completion) (c : Client) (r : Result (Unit {0}))
      → (before_call a.admitted_at c.breaker).0 ≡ r
      → Continues environment (suc i) left next
      → Tells environment i (suc left) c (
          admit r
            (call_provider retry a i left next)
            (record c { breaker = (before_call a.admitted_at c.breaker).1 }))
  unfolding call_provider count meanwhile
  admit-Tells left next c (err e) p more = (0, rejected e c.breaker a.admitted_at p, omega arith)
  admit-Tells left next c (ok u) p more = settle-Tells left a.answer next c _ refl refl more

  guarded_call-Tells :
      (left : ℕ) (next : Client → Completion) (c : Client)
      → Continues environment (suc i) left next
      → Tells environment i (suc left) c (guarded_call retry a i left next c)
  unfolding guarded_call count meanwhile
  guarded_call-Tells left next c more =
      admit-Tells left next c (before_call a.admitted_at c.breaker).0 refl more

  attempt-Tells :
      (left : ℕ) (next : Client → Completion) (c : Client)
      → Continues environment (suc i) left next
      → Tells environment i (suc left) c (attempt retry a i left next c)
  unfolding attempt
  attempt-Tells left next c more =
      let c' = (wait_token a.rounds c).1 in
      let same = wait_token-calls a.rounds c in
      let (n, story, counted) = guarded_call-Tells left next c' more in
      Tells-if c (is_refused one_token c.limiter) _ _ (0, never_enough _ refl, omega arith)
        (Tells-if c (wait_token a.rounds c).0 _ _ (n, story, omega (arith, counted, same))
          (0, waiting_for_token, omega (arith, same)))

pub attempts-Tells :
    (retry : RetryConfig) (environment : ℕ → Attempt) (i left : ℕ) (c : Client)
    → Tells environment i (suc left) c (attempts retry environment i (suc left) c)
unfolding attempts
attempts-Tells retry environment i zero c = attempt-Tells retry environment i zero _ c tt
attempts-Tells retry environment i (suc left) c =
    attempt-Tells retry environment i (suc left) _ c
      (λ d. attempts-Tells retry environment (suc i) left d)

abbrev pub max_attempts : RetryConfig → ℕ
max_attempts retry = pos_part retry.max_attempts

attempts-Story :
    (retry : RetryConfig) (environment : ℕ → Attempt) (m : ℕ) (c : Client)
    → c.calls ≡ 0
    → 0 < m
    → let (result, c') = attempts retry environment 0 m c in Story environment 0 m result c'.calls
attempts-Story retry environment zero c e h = elim h [ ]
attempts-Story retry environment (suc m) c e h =
    let (n, story, counted) = attempts-Tells retry environment 0 m c in
    let total : (attempts retry environment 0 (suc m) c).1.calls ≡ n = omega (arith, counted) in
    rw total story

pub complete-Story :
    (retry : RetryConfig) (environment : ℕ → Attempt) (c : Client)
    → 0 < max_attempts retry
    → let (result, c') = complete retry environment c in
      Story environment 0 (max_attempts retry) result c'.calls
unfolding complete
complete-Story retry environment c h =
    attempts-Story retry environment (max_attempts retry) (record c { calls = 0; sleeps = [] }) refl
      h

-- A request that is allowed at least one attempt calls the provider `max_attempts` times at most.
pub complete-calls-le :
    (retry : RetryConfig) (environment : ℕ → Attempt) (c : Client)
    → 0 < max_attempts retry
    → (complete retry environment c).1.calls ≤ max_attempts retry
complete-calls-le retry environment c h = Story-calls (complete-Story retry environment c h)
