-- ===== src/Examples/Tools.antt =====
-- The tools and the calculator on concrete inputs.
use production_agent_runtime.Common.{
  ℕ, ◌+◌, ◌≤◌, ◌≡◌, ◌↔◌, Bool, false, none, List, [], ◌∷◌, Text, text, ltb, ◌*◌, ◌^◌, if◌then◌else◌,
}
use production_agent_runtime.Common.Dict
use production_agent_runtime.Common.Int.{pos}
use production_agent_runtime.Common.Exec.{Result, ok, err, value_error, timeout_error}
use production_agent_runtime.Tools.{new_registry}
use production_agent_runtime.Tools.Bulkhead.{
  ToolStep, registers, enters, leaves, calls_of, run_steps, limit_of,
}
use production_agent_runtime.Tools.Bulkhead.Calls.{run_steps-calls}
use production_agent_runtime.Tools.Calculator.{
  Arithmetic, Node, constant, binary, add, mult, power, evaluate_node,
}
use production_agent_runtime.Tools.Calculator.Depth.{height, value_of, evaluate_node_iff}

abbrev echo : Text
echo = text "echo"

abbrev dumps : Bool → Result Text
dumps b = ok (text "b")

-- two calls get in, the third waits, one leaves with a timeout
abbrev steps : List (ToolStep Bool)
steps =
    registers echo [] false (pos 2) none
    ∷ enters echo
    ∷ enters echo
    ∷ enters echo
    ∷ leaves echo (err timeout_error)
    ∷ []

run_steps-calls_example :
    let s =
      run_steps dumps steps (record { registry = new_registry 30 []; running = []; limits = [] }) in
    calls_of echo s.running ≤ limit_of (Dict.get s.limits echo)
run_steps-calls_example = run_steps-calls dumps steps 30 [] echo

-- arithmetic on natural numbers
abbrev naturals : Arithmetic ℕ ℕ
naturals = record {
  literal = λ n. ok n;
  add = λ a b. ok (a + b);
  sub = λ a b. err (value_error []);
  mul = λ a b. ok (a * b);
  truediv = λ a b. err (value_error []);
  floordiv = λ a b. err (value_error []);
  modulo = λ a b. err (value_error []);
  pow = λ a b. ok (a ^ b);
  positive = λ a. ok a;
  negative = λ a. err (value_error []);
  exceeds = λ a. ltb 12 a;
}

-- (2 + 3) * 4
abbrev expression : Node ℕ
expression = binary mult (binary add (constant 2) (constant 3)) (constant 4)

evaluate_node_iff_example :
    (evaluate_node naturals expression 0 ≡ ok 20)
    ↔ ((height expression ≤ 20) × (value_of naturals expression ≡ ok 20))
evaluate_node_iff_example = evaluate_node_iff naturals expression 20

-- what there is to take care of above 12
abbrev capped : ℕ → ℕ → Result ℕ
capped a b = if ltb 12 b then ok 0 else ok (a ^ b)

abbrev large_power : Node ℕ
large_power = binary power (constant 2) (constant 13)
