-- ===== src/Metrics.antt =====
-- src/agent_runtime/metrics.py: counters and gauges by name. Values are whole numbers: counts, and
-- durations in clock ticks.
pub mod Render
use production_agent_runtime.Common.{
  ℕ, ◌≡◌, refl, Bool, ◌||◌, ◌==◌, Option, none, some, [], ◌∷◌, Text, text_eq, arith, if◌then◌else◌,
}
use production_agent_runtime.Common.Dict
use production_agent_runtime.Common.Dict.{Dict, get-put}
use production_agent_runtime.Common.Int.{ℤ, pos, ◌+ℤ◌}

abbrev pub Metrics : Type 0
Metrics = Dict ℤ

-- defaultdict(float)
abbrev or_zero : Option ℤ → ℤ
or_zero none = pos 0
or_zero (some v) = v

-- what `snapshot().get(name, 0)` shows
unfoldable pub value_of : Metrics → Text → ℤ
value_of m name = or_zero (Dict.get m name)

-- increment(name, value)
unfoldable pub increment_by : ℤ → Text → Metrics → Metrics
unfolding value_of
increment_by value name m = Dict.put m name (value_of m name +ℤ value)

-- increment(name)
unfoldable pub increment : Text → Metrics → Metrics
unfolding increment_by
increment name m = increment_by (pos 1) name m

-- set(name, value)
unfoldable pub set_gauge : Text → ℕ → Metrics → Metrics
set_gauge name value m = Dict.put m name (pos value)

pub value_of-increment_by :
    (value : ℤ) (name other : Text) (m : Metrics)
    → value_of (increment_by value name m) other
      ≡ (if text_eq name other then value_of m name +ℤ value else value_of m other)
unfolding increment_by
value_of-increment_by value name other m = rw get-put (ground arith)

-- `_sanitize`; `is_alnum` is `str.isalnum` on one character
unfoldable pub sanitize : (ℕ → Bool) → Text → Text
sanitize is_alnum [] = []
sanitize is_alnum (c ∷ s) = (if is_alnum c || c == b'_' then c else b'_') ∷ sanitize is_alnum s

-- A sanitized metric name is not changed by sanitizing it again.
pub sanitize_idem :
    (is_alnum : ℕ → Bool) (s : Text) → sanitize is_alnum (sanitize is_alnum s) ≡ sanitize is_alnum s
unfolding sanitize
sanitize_idem is_alnum [] = refl
sanitize_idem is_alnum (c ∷ s) = ground (arith, sanitize_idem is_alnum s)
