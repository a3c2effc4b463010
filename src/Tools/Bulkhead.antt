-- ===== src/Tools/Bulkhead.antt =====
-- The bulkheads of tools.py: calls of tools that register, enter and leave in any order.
pub mod Balance
pub mod Calls
use production_agent_runtime.Common.{
  ℕ, zero, suc, ◌+◌, ◌-◌, ◌≤◌, ◌≡◌, refl, sym, ◌∙◌, ap, ◌⊎◌, inl, inr, Bool, true, false, Option,
  none, some, List, [], ◌∷◌, Text, text_eq, text_eq_iff, text_eq_refl, leb, leb→le, is_some,
  Bool-cases, Option-cases, arith, if◌then◌else◌,
}
use production_agent_runtime.Common.Dict
use production_agent_runtime.Common.Dict.{Dict, get-put}
use production_agent_runtime.Common.Int.{ℤ, pos_part}
use production_agent_runtime.Common.Exec.{
  Exception, Result, ok, err, continue, ◌>>=◌, ◌>>◌, cancelled_error,
}
use production_agent_runtime.Models.{not_positive}
use production_agent_runtime.Metrics.{Metrics}
use production_agent_runtime.Tools.{
  Tool, ToolRegistry, known, find_tool, count, count_error, take_slot, put_tool, is_refused,
  new_tool, timeout_or, enter, release, register, Output, leave, new_registry,
}

-- `running` has the name of the tool for each call inside its bulkhead, and `limits` the
-- max_concurrency that each tool was registered with.
pub record Bulkhead : Type 0 where
  pub registry : ToolRegistry
  pub running : List Text
  pub limits : Dict ℕ

pub data ToolStep (V : Type 0) : Type 0 where
  registers : Text → Text → Bool → ℤ → Option ℕ → ToolStep V
  enters : Text → ToolStep V  -- a call behind its checks tries to enter
  leaves : Text → Result (Output V) → ToolStep V  -- a call inside gets its outcome

-- how many of the calls are calls of the tool
unfoldable pub calls_of : Text → List Text → ℕ
calls_of name [] = 0
calls_of name (x ∷ xs) = let rest = calls_of name xs in if text_eq x name then suc rest else rest

unfoldable pub remove_call : Text → List Text → List Text
remove_call name [] = []
remove_call name (x ∷ xs) =
    let rest = remove_call name xs in if text_eq x name then xs else x ∷ rest

abbrev pub note_limit : Text → ℕ → Result (Unit {0}) → Dict ℕ → Dict ℕ
note_limit name limit (ok u) limits = Dict.put limits name limit
note_limit name limit (err e) limits = limits

abbrev pub note_call : Text → Result Bool → List Text → List Text
note_call name (ok true) running = name ∷ running
note_call name _ running = running

module _ {V : Type 0} (dumps : V → Result Text) where
  unfoldable pub step : ToolStep V → Bulkhead → Bulkhead
  step (registers name description is_coroutine max_concurrency timeout) s =
      let (r, registry) =
        register name description is_coroutine max_concurrency timeout s.registry in
      record s {
        registry = registry;
        limits = note_limit name (pos_part max_concurrency) r s.limits;
      }
  step (enters name) s =
      let (r, registry) = enter name s.registry in
      record s { registry = registry; running = note_call name r s.running }
  step (leaves name outcome) s =
      if leb 1 (calls_of name s.running)
      then record s {
        registry = (leave dumps name outcome s.registry).1;
        running = remove_call name s.running;
      }
      else s

  unfoldable pub run_steps : List (ToolStep V) → Bulkhead → Bulkhead
  run_steps [] s = s
  run_steps (a ∷ steps) s = run_steps steps (step a s)

-- 0 for a tool that is not registered
abbrev pub limit_of : Option ℕ → ℕ
limit_of none = 0
limit_of (some limit) = limit
