-- ===== src/Tools/Bulkhead/Balance.antt =====
-- A tool's slots are those that are free and those that calls hold.
use production_agent_runtime.Common.{
  ℕ, ◌+◌, ◌-◌, ◌≤◌, ◌≡◌, refl, ◌∙◌, ap, inl, inr, false, Option, none, some, List, [], ◌∷◌, Text,
  text_eq, text_eq_iff, Bool-cases, Option-cases, arith, if◌then◌else◌,
}
use production_agent_runtime.Common.Dict
use production_agent_runtime.Common.Dict.{Dict, get-put}
use production_agent_runtime.Common.Exec.{Result, ok, err, continue, ◌>>=◌, cancelled_error}
use production_agent_runtime.Tools.{
  Tool, ToolRegistry, find_tool, count, count_error, release, Output, leave,
}
use production_agent_runtime.Tools.Bulkhead.{Bulkhead, calls_of, remove_call}

-- the slots of a tool: those that are free, and one for each call inside
abbrev pub Balanced : Text → Option Tool → Option ℕ → ℕ → Type 0
Balanced name none none calls = calls ≡ 0
Balanced name none (some limit) calls = ⊥
Balanced name (some tool) none calls = ⊥
Balanced name (some tool) (some limit) calls = (tool.name ≡ name) × (tool.free + calls ≡ limit)

abbrev pub AllBalanced : Bulkhead → Type 0
AllBalanced s =
    (name : Text)
    → Balanced name (Dict.get s.registry.tools name) (Dict.get s.limits name)
        (calls_of name s.running)

pub calls_of-remove :
    (name other : Text) (xs : List Text)
    → 1 ≤ calls_of name xs
    → calls_of other (remove_call name xs)
      ≡ (if text_eq name other then calls_of other xs - 1 else calls_of other xs)
unfolding calls_of remove_call
calls_of-remove name other [] h = elim h [ ]
calls_of-remove name other (x ∷ xs) h = ground (
  arith,
  h,
  text_eq_iff x name,
  text_eq_iff name other,
  text_eq_iff x other,
  calls_of-remove name other xs,
)

-- the registry's tools behind each operation
unfoldable pub released : Dict Tool → Option Tool → Dict Tool
released tools none = tools
released tools (some tool) = Dict.put tools tool.name (record tool { free = tool.free + 1 })

release-tools :
    (name : Text) (r : ToolRegistry)
    → (release name r).1.tools ≡ released r.tools (Dict.get r.tools name)
unfolding release find_tool released ◌>>=◌
release-tools name r = elim (Option-cases (Dict.get r.tools name)) [
  | inl missing ↦ rw missing refl
  | inr (tool, found) ↦ rw found refl
]

then_stop :
    {S A B : Type 0} (r : Result A) (f : A → Result B) (s : S)
    → (continue r (λ a s'. (f a, s')) s).1 ≡ s
then_stop (ok a) f s = refl
then_stop (err e) f s = refl

pub leave-tools :
    {V : Type 0} (dumps : V → Result Text) (name : Text) (outcome : Result (Output V))
    (r : ToolRegistry)
    → (leave dumps name outcome r).1.tools ≡ released r.tools (Dict.get r.tools name)
unfolding leave count ◌>>=◌
leave-tools dumps name (ok result) r =
    ap (λ (t : ToolRegistry). t.tools) (then_stop (release name r).0 _ (release name r).1)
    ∙ release-tools name r
leave-tools dumps name (err cancelled_error) r =
    ap (λ (t : ToolRegistry). t.tools) (then_stop (release name r).0 _ (release name r).1)
    ∙ release-tools name r
leave-tools dumps name (err e) r =
    let r' : ToolRegistry = (count_error e r).1 in
    ap (λ (t : ToolRegistry). t.tools) (then_stop (release name r').0 _ (release name r').1)
    ∙ release-tools name r'

pub idle :
    (name : Text) (s : Bulkhead)
    → AllBalanced s
    → Dict.get s.registry.tools name ≡ none
    → calls_of name s.running ≡ 0
idle name s all missing = by_limit (Dict.get s.limits name) (rw (← missing) (all name))
  where
    by_limit :
        (limit : Option ℕ)
        → Balanced name none limit (calls_of name s.running)
        → calls_of name s.running ≡ 0
    by_limit none h = h
    by_limit (some limit) h = elim h [ ]

-- a call more or less: the slots of the tool change with the calls
module _ (s : Bulkhead) (all : AllBalanced s) (name : Text) (tool : Tool)
    (found : Dict.get s.registry.tools name ≡ some tool) where
  named : tool.name ≡ name
  named = by_limit (Dict.get s.limits name) (rw (← found) (all name))
    where
      by_limit :
          (limit : Option ℕ)
          → Balanced name (some tool) limit (calls_of name s.running)
          → tool.name ≡ name
      by_limit none h = elim h [ ]
      by_limit (some limit) h = h.0

  Balanced-change :
      (free calls : ℕ) (limit : Option ℕ)
      → free + calls ≡ tool.free + calls_of name s.running
      → Balanced name (some tool) limit (calls_of name s.running)
      → Balanced name (some (record tool { free = free })) limit calls
  Balanced-change free calls none same h = h
  Balanced-change free calls (some limit) same h = (h.0, omega (arith, same, h.1))

  put_here : (new : Tool) → Dict.get (Dict.put s.registry.tools tool.name new) name ≡ some new
  put_here new =
      get-put s.registry.tools tool.name name new ∙ (rw ((text_eq_iff tool.name name).1 named) refl)

  put_elsewhere :
      (new : Tool) (other : Text)
      → text_eq name other ≡ false
      → Dict.get (Dict.put s.registry.tools tool.name new) other ≡ Dict.get s.registry.tools other
  put_elsewhere new other differs =
      get-put s.registry.tools tool.name other new
      ∙ (rw (ap (λ (n : Text). text_eq n other) named ∙ differs) refl)

  pub changed-AllBalanced :
      (free : ℕ) (registry : ToolRegistry) (running : List Text)
      → registry.tools ≡ Dict.put s.registry.tools tool.name (record tool { free = free })
      → free + calls_of name running ≡ tool.free + calls_of name s.running
      → ((other : Text)
          → text_eq name other ≡ false
          → calls_of other running ≡ calls_of other s.running)
      → AllBalanced (record s { registry = registry; running = running })
  changed-AllBalanced free registry running tools_are balance others other =
      elim (Bool-cases (text_eq name other)) [
        | inl same ↦
            rw
              (← (text_eq_iff name other).0 same, tools_are, put_here (record tool { free = free }))
              (Balanced-change free (calls_of name running) (Dict.get s.limits name) balance
                (rw (← found) (all name)))
        | inr differs ↦
            rw
              (
                tools_are,
                put_elsewhere (record tool { free = free }) other differs,
                others other differs,
              )
              (all other)
      ]
