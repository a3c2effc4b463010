-- ===== src/Tools/Bulkhead/Calls.antt =====
-- How many calls are inside the bulkheads, after any steps.
use production_agent_runtime.Common.{
  ℕ, zero, suc, ◌+◌, ◌-◌, ◌≤◌, ◌≡◌, refl, ◌∙◌, ap, inl, inr, Bool, true, false, Option, none, some,
  List, [], ◌∷◌, Text, text_eq, text_eq_iff, text_eq_refl, leb, leb→le, Bool-cases, Option-cases,
  arith,
}
use production_agent_runtime.Common.Dict
use production_agent_runtime.Common.Dict.{Dict, get-put}
use production_agent_runtime.Common.Int.{ℤ, pos_part}
use production_agent_runtime.Common.Exec.{Result, ◌>>=◌}
use production_agent_runtime.Models.{not_positive}
use production_agent_runtime.Metrics.{Metrics}
use production_agent_runtime.Tools.{
  Tool, find_tool, count, take_slot, put_tool, is_refused, new_tool, timeout_or, enter, register,
  Output, leave, new_registry,
}
use production_agent_runtime.Tools.Bulkhead.{
  Bulkhead, ToolStep, registers, enters, leaves, calls_of, remove_call, note_call, step, run_steps,
  limit_of,
}
use production_agent_runtime.Tools.Bulkhead.Balance.{
  Balanced, AllBalanced, released, leave-tools, calls_of-remove, idle, changed-AllBalanced,
}

module _ {V : Type 0} (dumps : V → Result Text) where
  enters-AllBalanced :
      (name : Text) (s : Bulkhead) → AllBalanced s → AllBalanced (step dumps (enters name) s)
  unfolding step enter find_tool count calls_of ◌>>=◌
  enters-AllBalanced name s all = elim (Option-cases (Dict.get s.registry.tools name)) [
    | inl missing ↦ rw missing all
    | inr (tool, found) ↦ rw found (entered tool found tool.free refl)
  ]
    where
      entered :
          (tool : Tool)
          → Dict.get s.registry.tools name ≡ some tool
          → (free : ℕ) → tool.free ≡ free
          → let (r, registry) = take_slot tool free s.registry in
            AllBalanced (record s { registry = registry; running = note_call name r s.running })
      entered tool found zero is_free = all
      entered tool found (suc n) is_free =
          changed-AllBalanced s all name tool found n (take_slot tool (suc n) s.registry).1
            (name ∷ s.running) refl (rw (text_eq_refl name) (omega (arith, is_free)))
            (λ other differs. rw differs refl)

  leaves-AllBalanced :
      (name : Text) (outcome : Result (Output V)) (s : Bulkhead)
      → AllBalanced s
      → AllBalanced (step dumps (leaves name outcome) s)
  unfolding step released
  leaves-AllBalanced name outcome s all = elim (Bool-cases (leb 1 (calls_of name s.running))) [
    | inl inside ↦ elim (Option-cases (Dict.get s.registry.tools name)) [
      | inl missing ↦ ground (arith, inside, idle name s all missing)
      | inr (tool, found) ↦ rw inside (
          changed-AllBalanced s all name tool found (tool.free + 1)
            (leave dumps name outcome s.registry).1 (remove_call name s.running)
            (leave-tools dumps name outcome s.registry ∙ ap (released s.registry.tools) found)
            (omega (arith, here inside))
            (λ other differs.
              calls_of-remove name other s.running (leb→le 1 _ inside) ∙ (rw differs refl)))
    ]
    | inr outside ↦ rw outside all
  ]
    where
      here :
          leb 1 (calls_of name s.running) ≡ true
          → calls_of name (remove_call name s.running) + 1 ≡ calls_of name s.running
      here inside =
          let removed : calls_of name (remove_call name s.running) ≡ calls_of name s.running - 1 =
            calls_of-remove name name s.running (leb→le 1 _ inside)
            ∙ (rw (text_eq_refl name) refl) in
          omega (arith, removed, leb→le 1 _ inside)

  registers-AllBalanced :
      (name description : Text) (is_coroutine : Bool) (max_concurrency : ℤ) (timeout : Option ℕ)
      (s : Bulkhead)
      → AllBalanced s
      → AllBalanced (step dumps (registers name description is_coroutine max_concurrency timeout) s)
  unfolding step register ◌>>=◌
  registers-AllBalanced name description is_coroutine max_concurrency timeout s all =
      elim (Bool-cases (is_refused name s.registry)) [
        | inl refused ↦ rw refused all
        | inr fresh ↦ elim (Bool-cases (not_positive max_concurrency)) [
          | inl refused ↦ rw (fresh, refused) all
          | inr positive ↦ rw (fresh, positive) (registered fresh)
        ]
      ]
    where
      here : is_refused name s.registry ≡ false → calls_of name s.running ≡ 0
      here fresh = elim (Option-cases (Dict.get s.registry.tools name)) [
        | inl missing ↦ idle name s all missing
        | inr (tool, found) ↦ let taken = rw found at fresh in ground (arith, taken)
      ]

      registered :
          is_refused name s.registry ≡ false
          → let tool =
              new_tool name description is_coroutine max_concurrency
                (timeout_or s.registry.default_timeout timeout) in
            AllBalanced (record s {
              registry = put_tool tool s.registry;
              limits = Dict.put s.limits name (pos_part max_concurrency);
            })
      registered fresh other = elim (Bool-cases (text_eq name other)) [
        | inl same ↦
            rw (← (text_eq_iff name other).0 same, get-put, get-put, text_eq_refl name)
              (refl, omega (arith, here fresh))
        | inr differs ↦ rw (get-put, get-put, differs) (all other)
      ]

  step-AllBalanced : (a : ToolStep V) (s : Bulkhead) → AllBalanced s → AllBalanced (step dumps a s)
  step-AllBalanced (registers name description is_coroutine max_concurrency timeout) s all =
      registers-AllBalanced name description is_coroutine max_concurrency timeout s all
  step-AllBalanced (enters name) s all = enters-AllBalanced name s all
  step-AllBalanced (leaves name outcome) s all = leaves-AllBalanced name outcome s all

  run_steps-AllBalanced :
      (steps : List (ToolStep V)) (s : Bulkhead)
      → AllBalanced s
      → AllBalanced (run_steps dumps steps s)
  unfolding run_steps
  run_steps-AllBalanced [] s all = all
  run_steps-AllBalanced (a ∷ steps) s all =
      run_steps-AllBalanced steps (step dumps a s) (step-AllBalanced a s all)

  Balanced-le :
      (name : Text) (tool : Option Tool) (limit : Option ℕ) (calls : ℕ)
      → Balanced name tool limit calls
      → calls ≤ limit_of limit
  Balanced-le name none none calls h = omega (arith, h)
  Balanced-le name none (some limit) calls h = elim h [ ]
  Balanced-le name (some tool) none calls h = elim h [ ]
  Balanced-le name (some tool) (some limit) calls h = omega (arith, h.1)

  -- Whatever tools are registered and whatever calls enter and leave, in any order, from an empty
  -- registry on: no tool ever has more calls inside its bulkhead than the max_concurrency that it
  -- was registered with, and a tool that is not registered has none.
  pub run_steps-calls :
      (steps : List (ToolStep V)) (default_timeout : ℕ) (metrics : Metrics) (name : Text)
      → let s =
          run_steps dumps steps (record {
            registry = new_registry default_timeout metrics;
            running = [];
            limits = [];
          }) in
        calls_of name s.running ≤ limit_of (Dict.get s.limits name)
  unfolding calls_of Dict.get
  run_steps-calls steps default_timeout metrics name = Balanced-le name _ _ _ (
      run_steps-AllBalanced steps
        (record { registry = new_registry default_timeout metrics; running = []; limits = [] })
        (λ other. refl) name)
