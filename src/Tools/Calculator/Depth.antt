-- ===== src/Tools/Calculator/Depth.antt =====
-- The bound on the depth: `_evaluate_node` against an evaluation that has none.
use production_agent_runtime.Common.{ℕ, suc, ◌+◌, ◌≤◌, ◌≡◌, refl, ◌∙◌, sym, ◌↔◌, max, arith}
use production_agent_runtime.Common.Exec.Results.{◌>>=◌}
use production_agent_runtime.Common.Exec.{Result, ok, err}
use production_agent_runtime.Tools.Calculator.{
  BinaryOp, UnaryOp, Node, constant, binary, unary, other_node, Arithmetic, only_numeric, combine,
  change, within, evaluate_node,
}

-- how deep a tree's deepest node is
unfoldable pub height : {L : Type 0} → Node L → ℕ
height (constant value) = 0
height (binary op left right) = suc (max (height left) (height right))
height (unary op operand) = suc (height operand)
height other_node = 0

module _ {L N : Type 0} (arithmetic : Arithmetic L N) where
  -- the value of a tree of any depth
  unfoldable pub value_of : Node L → Result N
  value_of (constant value) = arithmetic.literal value
  value_of (binary op left right) = combine arithmetic op (value_of left) (value_of right)
  value_of (unary op operand) = change arithmetic op (value_of operand)
  value_of other_node = only_numeric

  within-le : (depth : ℕ) (r : Result N) → depth ≤ 20 → within depth r ≡ r
  within-le depth r h = ground arith

  evaluate_shallow :
      (node : Node L) (depth : ℕ)
      → height node + depth ≤ 20
      → evaluate_node arithmetic node depth ≡ value_of node
  unfolding evaluate_node value_of height
  evaluate_shallow (constant value) depth h = within-le depth _ (omega arith)
  evaluate_shallow (binary op left right) depth h =
      rw (evaluate_shallow left (depth + 1) (omega arith))
        (rw (evaluate_shallow right (depth + 1) (omega arith)) (within-le depth _ (omega arith)))
  evaluate_shallow (unary op operand) depth h =
      rw (evaluate_shallow operand (depth + 1) (omega arith)) (within-le depth _ (omega arith))
  evaluate_shallow other_node depth h = within-le depth _ (omega arith)

  within-ok : (depth : ℕ) (r : Result N) (v : N) → within depth r ≡ ok v → (depth ≤ 20) × (r ≡ ok v)
  within-ok depth r v p = ground (arith, p)

  has_value :
      (r : Result N) (f : N → Result N) (v : N)
      → (r >>= f) ≡ ok v
      → (x : N) × ((r ≡ ok x) × (f x ≡ ok v))
  unfolding ◌>>=◌
  has_value (ok x) f v p = (x, (refl, p))
  has_value (err e) f v p = ground (arith, p)

  -- an operation with a value has operands with values
  combine-ok :
      (op : BinaryOp) (x y : Result N) (v : N)
      → combine arithmetic op x y ≡ ok v
      → ((a : N) × (x ≡ ok a)) × ((b : N) × (y ≡ ok b))
  combine-ok BinaryOp.other_binary x y v p = ground (arith, p)
  combine-ok op x y v p =
      let (a, (at, rest)) = has_value x _ v p in
      let (b, (bt, done)) = has_value y _ v rest in ((a, at), (b, bt))

  change-ok :
      (op : UnaryOp) (x : Result N) (v : N) → change arithmetic op x ≡ ok v → (a : N) × (x ≡ ok a)
  change-ok UnaryOp.other_unary x v p = ground (arith, p)
  change-ok op x v p = let (a, (at, rest)) = has_value x _ v p in (a, at)

  evaluate-height :
      (node : Node L) (depth : ℕ) (v : N)
      → evaluate_node arithmetic node depth ≡ ok v
      → height node + depth ≤ 20
  unfolding evaluate_node height
  evaluate-height (constant value) depth v p = omega (arith, (within-ok depth _ v p).0)
  evaluate-height (binary op left right) depth v p =
      let (le, q) = within-ok depth _ v p in
      let ((a, at), (b, bt)) = combine-ok op _ _ v q in
      omega (arith, evaluate-height left (depth + 1) a at, evaluate-height right (depth + 1) b bt)
  evaluate-height (unary op operand) depth v p =
      let (le, q) = within-ok depth _ v p in
      let (a, at) = change-ok op _ v q in omega (arith, evaluate-height operand (depth + 1) a at)
  evaluate-height other_node depth v p = omega (arith, (within-ok depth _ v p).0)

  -- The evaluator gives a value exactly to the expressions that are nested 20 levels deep at most
  -- and have that value without any bound on the depth.
  pub evaluate_node_iff :
      (node : Node L) (v : N)
      → (evaluate_node arithmetic node 0 ≡ ok v) ↔ ((height node ≤ 20) × (value_of node ≡ ok v))
  evaluate_node_iff node v = (
    λ p.
        let h : height node ≤ 20 = omega (arith, evaluate-height node 0 v p) in
        (h, sym (evaluate_shallow node 0 (omega arith)) ∙ p),
    λ (h, p). evaluate_shallow node 0 (omega arith) ∙ p,
  )
