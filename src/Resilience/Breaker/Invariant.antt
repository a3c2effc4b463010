-- ===== src/Resilience/Breaker/Invariant.antt =====
-- What holds of the breaker between two calls, when it trips, and how it recovers.
use production_agent_runtime.Common.{
  ℕ, suc, ◌+◌, ◌-◌, ◌<◌, ◌≤◌, ◌≡◌, true, false, some, List, [], ◌∷◌, min, text, is_some, length,
  ltb, arith, if◌then◌else◌,
}
use production_agent_runtime.Common.Exec.{Result, ok, err, circuit_open_error}
use production_agent_runtime.Resilience.Breaker.{
  Breaker, closed, open_circuit, half_open, is_half_open, before_call, record_success,
  record_failure, release_probe,
}

pub record IsValid (b : Breaker) : Type 0 where
  pub threshold_pos : 0 < b.failure_threshold
  pub probes_pos : 0 < b.half_open_max_calls
  pub probes_bounded : b.half_open_calls ≤ b.half_open_max_calls
  pub probes_half_open : is_half_open b.state ≡ false → b.half_open_calls ≡ 0
  pub closed_below : b.state ≡ closed → b.failure_count < b.failure_threshold
  pub open_since : b.state ≡ open_circuit → is_some b.opened_at ≡ true

-- what callers do to the breaker, in any order
pub data Call : Type 0 where
  admit : ℕ → Call
  succeed : Call
  fail : ℕ → Call
  cancel : Call

unfoldable pub step : Call → Breaker → Breaker
step (admit now) b = (before_call now b).1
step succeed b = record_success b
step (fail now) b = record_failure now b
step cancel b = release_probe b

abbrev pub run : List Call → Breaker → Breaker
run [] b = b
run (c ∷ cs) b = run cs (step c b)

abbrev pub fail_all : List ℕ → Breaker → Breaker
fail_all [] b = b
fail_all (t ∷ ts) b = fail_all ts (record_failure t b)

stays_open :
    (ts : List ℕ) (b : Breaker)
    → b.failure_threshold ≤ b.failure_count
    → b.state ≡ open_circuit
    → (fail_all ts b).state ≡ open_circuit
unfolding record_failure
stays_open [] b h o = o
stays_open (t ∷ ts) b h o = stays_open ts (record_failure t b) (ground arith) (ground arith)

-- A closed breaker that has only failures stays closed while their number is below the threshold,
-- and is open from there on.
pub fail_all-trips :
    (ts : List ℕ) (b : Breaker)
    → b.state ≡ closed
    → b.failure_count < b.failure_threshold
    → (fail_all ts b).state
      ≡ (if ltb (b.failure_count + length ts) b.failure_threshold then closed else open_circuit)
unfolding record_failure
fail_all-trips [] b c h = ground arith
fail_all-trips (t ∷ ts) b c h =
    ground (arith, fail_all-trips ts (record_failure t b), stays_open ts (record_failure t b))

-- the number of calls that are let through, for attempts at the given times
abbrev pub tally : Result (Unit {0}) → ℕ → ℕ
tally (ok u) n = suc n
tally (err e) n = n

abbrev pub admitted : List ℕ → Breaker → ℕ
admitted [] b = 0
admitted (t ∷ ts) b = tally (before_call t b).0 (admitted ts (before_call t b).1)

half_open_admits :
    (ts : List ℕ) (b : Breaker)
    → b.state ≡ half_open
    → admitted ts b ≡ min (length ts) (b.half_open_max_calls - b.half_open_calls)
unfolding before_call
half_open_admits [] b h = omega arith
half_open_admits (t ∷ ts) b h = ground (
  arith,
  half_open_admits ts b,
  half_open_admits ts (record b { half_open_calls = b.half_open_calls + 1 }),
)

-- An open breaker refuses every call until the recovery time has passed, and stays as it is.
pub before_call-open :
    (t since : ℕ) (b : Breaker)
    → b.state ≡ open_circuit
    → b.opened_at ≡ some since
    → t < since + b.recovery_timeout
    → before_call t b ≡ (err (circuit_open_error (text "circuit breaker is open")), b)
unfolding before_call
before_call-open t since b o s early = ground arith

-- An open breaker that allows at least one probe, and whose recovery time has passed, lets
-- `half_open_max_calls` of the next calls through, or all if they are fewer, as long as none of
-- them has a result.
pub open-recovers :
    (t : ℕ) (ts : List ℕ) (since : ℕ) (b : Breaker)
    → b.state ≡ open_circuit
    → b.opened_at ≡ some since
    → 0 < b.half_open_max_calls
    → since + b.recovery_timeout ≤ t
    → admitted (t ∷ ts) b ≡ min (length (t ∷ ts)) b.half_open_max_calls
unfolding before_call
open-recovers t ts since b o s h late =
    ground (arith, half_open_admits ts (record b { state = half_open; half_open_calls = 1 }))
