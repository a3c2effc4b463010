-- ===== src/Tools/Calculator.antt =====
-- `safe_calculate` and `_evaluate_node` of tools.py. Numbers are floats: their type and Python's
-- operators on them are parameters, and so is ast.parse.
pub mod Depth
pub mod Powers
use production_agent_runtime.Common.{
  ℕ, ◌+◌, Bool, true, false, Text, text, length, ltb, if◌then◌else◌,
}
use production_agent_runtime.Common.Exec.Results.{◌>>=◌}
use production_agent_runtime.Common.Exec.{Result, ok, err, value_error}

pub data BinaryOp : Type 0 where
  add : BinaryOp
  sub : BinaryOp
  mult : BinaryOp
  div : BinaryOp
  floor_div : BinaryOp
  mod_op : BinaryOp
  power : BinaryOp
  other_binary : BinaryOp  -- one that `_BINARY_OPERATORS` has not

pub data UnaryOp : Type 0 where
  plus : UnaryOp
  minus : UnaryOp
  other_unary : UnaryOp

-- a node of Python's syntax tree, with the literals of type L that are int or float
pub data Node (L : Type 0) : Type 0 where
  constant : L → Node L
  binary : BinaryOp → Node L → Node L → Node L
  unary : UnaryOp → Node L → Node L
  other_node : Node L

-- the operators on floats, each followed by `float`; `exceeds` is abs(x) > 12
pub record Arithmetic (L N : Type 0) : Type 0 where
  pub literal : L → Result N
  pub add : N → N → Result N
  pub sub : N → N → Result N
  pub mul : N → N → Result N
  pub truediv : N → N → Result N
  pub floordiv : N → N → Result N
  pub modulo : N → N → Result N
  pub pow : N → N → Result N
  pub positive : N → Result N
  pub negative : N → Result N
  pub exceeds : N → Bool

abbrev pub only_numeric : {N : Type 0} → Result N
only_numeric = err (value_error (text "only numeric arithmetic is allowed"))

-- if depth > 20: raise
abbrev pub within : {N : Type 0} → ℕ → Result N → Result N
within depth result =
    if ltb 20 depth then err (value_error (text "expression is too deeply nested")) else result

module _ {L N : Type 0} (arithmetic : Arithmetic L N) where
  abbrev pub bounded_power : N → N → Result N
  bounded_power left right =
      if arithmetic.exceeds right
      then err (value_error (text "exponent is too large"))
      else arithmetic.pow left right

  -- `_BINARY_OPERATORS`, with the test of an exponent
  unfoldable pub apply_binary : BinaryOp → N → N → Result N
  apply_binary BinaryOp.add left right = arithmetic.add left right
  apply_binary BinaryOp.sub left right = arithmetic.sub left right
  apply_binary BinaryOp.mult left right = arithmetic.mul left right
  apply_binary BinaryOp.div left right = arithmetic.truediv left right
  apply_binary BinaryOp.floor_div left right = arithmetic.floordiv left right
  apply_binary BinaryOp.mod_op left right = arithmetic.modulo left right
  apply_binary BinaryOp.power left right = bounded_power left right
  apply_binary BinaryOp.other_binary left right = only_numeric

  -- `_UNARY_OPERATORS`
  unfoldable pub apply_unary : UnaryOp → N → Result N
  apply_unary UnaryOp.plus operand = arithmetic.positive operand
  apply_unary UnaryOp.minus operand = arithmetic.negative operand
  apply_unary UnaryOp.other_unary operand = only_numeric

  -- The operator is looked up before the operands are evaluated.
  abbrev pub combine : BinaryOp → Result N → Result N → Result N
  combine BinaryOp.other_binary left right = only_numeric
  combine op left right = do x ← left; y ← right; apply_binary op x y

  abbrev pub change : UnaryOp → Result N → Result N
  change UnaryOp.other_unary operand = only_numeric
  change op operand = do x ← operand; apply_unary op x

  -- `_evaluate_node`
  unfoldable pub evaluate_node : Node L → ℕ → Result N
  evaluate_node (constant value) depth = within depth (arithmetic.literal value)
  evaluate_node (binary op left right) depth =
      let x = evaluate_node left (depth + 1) in
      let y = evaluate_node right (depth + 1) in within depth (combine op x y)
  evaluate_node (unary op operand) depth =
      let x = evaluate_node operand (depth + 1) in within depth (change op x)
  evaluate_node other_node depth = within depth only_numeric

  -- `safe_calculate`
  unfoldable pub safe_calculate : (Text → Result (Node L)) → Text → Result N
  safe_calculate parse expression =
      if ltb 256 (length expression)
      then err (value_error (text "expression is too long"))
      else (do tree ← parse expression; evaluate_node tree 0)
