-- ===== src/Metrics/Render.antt =====
-- `timer` and `render_prometheus` of metrics.py.
use production_agent_runtime.Common.{ℕ, ◌-◌, Bool, ◌∷◌, ◌++◌, List, map, Text, text}
use production_agent_runtime.Common.Int.{ℤ, pos}
use production_agent_runtime.Common.Sorting.{sort, text_leb}
use production_agent_runtime.Common.Strings.{join}
use production_agent_runtime.Metrics.{Metrics, increment, increment_by, sanitize}

-- `timer(name)` around a block that lasts from `started` to `ended`, whether it returns or raises
unfoldable pub timer : Text → ℕ → ℕ → Metrics → Metrics
timer name started ended m =
    increment (name ++ text "_seconds_count")
      (increment_by (pos (ended - started)) (name ++ text "_seconds_sum") m)

-- `str.isalnum` on one character, and f"{value:.9g}"
pub record Formats : Type 0 where
  pub is_alnum : ℕ → Bool
  pub show_value : ℤ → Text

unfoldable pub line_of : Formats → Text × ℤ → Text
line_of formats (key, value) =
    text "agent_runtime_"
    ++ (sanitize formats.is_alnum key ++ (text " " ++ formats.show_value value))

-- sorted(values.items()), whose keys differ
unfoldable pub sorted_items : Metrics → List (Text × ℤ)
sorted_items m = sort (λ (x : Text × ℤ) (y : Text × ℤ). text_leb x.0 y.0) m

unfoldable pub render_prometheus : Formats → Metrics → Text
render_prometheus formats m =
    join (text "\n")
      (text "# TYPE agent_runtime_metric gauge" ∷ map (line_of formats) (sorted_items m))
    ++ text "\n"
