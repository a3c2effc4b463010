-- ===== src/Resilience/TokenBucket/Rate.antt =====
-- How much the bucket grants over time, and that a caller who waits as told is served.
use native.Mathlib.Nat.{add-mul, div-add-mod', mod-lt, mul-le-mul_right, le_trans}
use production_agent_runtime.Common.{
  ℕ, ◌+◌, ◌-◌, ◌*◌, ◌≤◌, ◌<◌, ◌≡◌, refl, sym, Option, none, some, List, [], ◌∷◌, arith,
}
use production_agent_runtime.Resilience.TokenBucket.{
  TokenBucket, refill, wait_ticks, round, acquire, granted,
}

-- Rounds of any callers, in the order in which they hold the lock: what is wanted, and when.
pub record Request : Type 0 where
  pub wanted : ℕ
  pub now : ℕ

abbrev pub amount : Option ℕ → ℕ → ℕ
amount none wanted = wanted
amount (some w) wanted = 0

-- the total amount granted, and the bucket afterwards
unfoldable pub serve : List Request → TokenBucket → ℕ × TokenBucket
serve [] b = (0, b)
serve (r ∷ rs) b =
    let (asleep, b') = round r.wanted r.now b in
    let (total, b'') = serve rs b' in (amount asleep r.wanted + total, b'')

-- a monotonic clock, from t on
abbrev pub Ordered : ℕ → List Request → Type 0
Ordered t [] = Unit
Ordered t (r ∷ rs) = (t ≤ r.now) × Ordered r.now rs

round_balance :
    (wanted now : ℕ) (b : TokenBucket)
    → b.updated_at ≤ now
    → let (asleep, b') = round wanted now b in
      (amount asleep wanted + b'.tokens ≤ b.tokens + (now - b.updated_at) * b.refill_rate)
      × (b'.updated_at ≡ now)
      × (b'.refill_rate ≡ b.refill_rate)
unfolding round
round_balance wanted now b h = ground arith

span : (u n v r : ℕ) → u ≤ n → n ≤ v → (n - u) * r + (v - n) * r ≡ (v - u) * r
span u n v r h k =
    let apart : v - u ≡ (n - u) + (v - n) = omega arith in
    rw apart (sym (add-mul (n - u) (v - n) r))

-- The balance of `serve`, with the clock's progress.
serve_balance :
    (rs : List Request) (b : TokenBucket)
    → Ordered b.updated_at rs
    → let (total, b') = serve rs b in
      (b.updated_at ≤ b'.updated_at)
      × (total + b'.tokens ≤ b.tokens + (b'.updated_at - b.updated_at) * b.refill_rate)
unfolding serve
serve_balance [] b h = omega arith
serve_balance (r ∷ rs) b h =
    let b' = (round r.wanted r.now b).1 in
    let (spent, at_now, same_rate) = round_balance r.wanted r.now b h.0 in
    let (grows, balance) = rw (at_now, same_rate) at (serve_balance rs b' (rw at_now h.1)) in
    omega (
      arith,
      spent,
      balance,
      grows,
      span b.updated_at r.now (serve rs b').1.updated_at b.refill_rate h.0 grows,
    )

-- Under a monotonic clock, whatever callers come, what they are granted in all and what is left
-- never exceeds what was there and what has flowed in since.
pub serve-rate :
    (rs : List Request) (b : TokenBucket)
    → Ordered b.updated_at rs
    → let (total, b') = serve rs b in
      total + b'.tokens ≤ b.tokens + (b'.updated_at - b.updated_at) * b.refill_rate
serve-rate rs b h = (serve_balance rs b h).1

round-capacity :
    (wanted now : ℕ) (b : TokenBucket)
    → ((round wanted now b).1.tokens ≤ b.capacity) × ((round wanted now b).1.capacity ≡ b.capacity)
unfolding round
round-capacity wanted now b = ground arith

-- A bucket that holds at most its capacity still does after any requests, and its capacity stays
-- the same.
pub serve-capacity :
    (rs : List Request) (b : TokenBucket)
    → b.tokens ≤ b.capacity
    → ((serve rs b).1.tokens ≤ b.capacity) × ((serve rs b).1.capacity ≡ b.capacity)
unfolding serve
serve-capacity [] b h = (h, refl)
serve-capacity (r ∷ rs) b h =
    ground (arith, round-capacity r.wanted r.now b, serve-capacity rs (round r.wanted r.now b).1)

-- What flows in during the wait covers what is missing.
wait_covers : (missing rate : ℕ) → 0 < rate → missing ≤ wait_ticks missing rate * rate
unfolding wait_ticks
wait_covers missing rate h =
    omega (arith, div-add-mod' (missing + (rate - 1)) rate, mod-lt (missing + (rate - 1)) h)

second_round :
    (wanted t later : ℕ) (b : TokenBucket)
    → wanted ≤ b.capacity
    → 0 < b.refill_rate
    → t + wait_ticks (wanted - (refill t b).tokens) b.refill_rate ≤ later
    → wanted ≤ (refill later (refill t b)).tokens
unfolding refill
second_round wanted t later b hc hr slept =
    let held = (refill t b).tokens in
    let missing = wanted - held in
    let enough : missing ≤ (later - t) * b.refill_rate =
      le_trans (wait_covers missing b.refill_rate hr)
        (mul-le-mul_right b.refill_rate (omega (arith, slept))) in
    ground (arith, enough)

-- With a positive refill rate, a caller that wants a positive amount within the capacity, that
-- nobody gets ahead of, and that sleeps at least as long as it is told, is granted its tokens in
-- the second round at the latest.
pub acquire_after_wait :
    (wanted t later : ℕ) (b : TokenBucket)
    → 0 < wanted
    → wanted ≤ b.capacity
    → 0 < b.refill_rate
    → t + wait_ticks (wanted - (refill t b).tokens) b.refill_rate ≤ later
    → (acquire wanted (t ∷ later ∷ []) b).0 ≡ granted
unfolding acquire
acquire_after_wait wanted t later b hw hc hr slept = ground (arith, second_round wanted t later b)
