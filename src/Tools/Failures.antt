-- ===== src/Tools/Failures.antt =====
-- How a call of a tool can fail.
use production_agent_runtime.Common.{none, some, Text}
use production_agent_runtime.Common.Dict
use production_agent_runtime.Common.Json.{Json}
use production_agent_runtime.Common.Exec.{
  Exec, Exception, Result, ok, err, pure, modify, continue, ◌>>=◌, tool_error, tool_not_found_error,
  cancelled_error,
}
use production_agent_runtime.Tools.{known, find_tool}

-- the exceptions that the rest of the runtime knows from tools
abbrev pub IsToolFailure : Exception → Type 0
IsToolFailure (tool_error m) = Unit
IsToolFailure (tool_not_found_error m) = Unit
IsToolFailure cancelled_error = Unit
IsToolFailure e = ⊥

abbrev Fails : {A : Type 0} → Result A → Type 0
Fails (ok a) = Unit
Fails (err e) = IsToolFailure e

-- whatever the method raises is a failure of a tool
pub record FailsAsTool {S A : Type 0} (method : Exec S A) : Type 0 where
  pub at : (s : S) → Fails (method s).0

module _ {S A B : Type 0} where
  continue-FailsAsTool :
      (r : Result A) (rest : A → Exec S B) (s : S)
      → Fails r
      → ((a : A) → FailsAsTool (rest a))
      → Fails (continue r rest s).0
  continue-FailsAsTool (ok a) rest s h later = (later a).at s
  continue-FailsAsTool (err e) rest s h later = h

  FailsAsTool-bind :
      (method : Exec S A) (rest : A → Exec S B)
      → FailsAsTool method
      → ((a : A) → FailsAsTool (rest a))
      → FailsAsTool (method >>= rest)
  unfolding ◌>>=◌
  FailsAsTool-bind method rest first later = record {
    at = λ s. continue-FailsAsTool (method s).0 rest (method s).1 (first.at s) later;
  }

FailsAsTool-pure : {S A : Type 0} (a : A) → FailsAsTool {S = S} (pure a)
FailsAsTool-pure a = record { at = λ s. tt }

FailsAsTool-modify : {S : Type 0} (f : S → S) → FailsAsTool (modify f)
FailsAsTool-modify f = record { at = λ s. tt }

find_tool-FailsAsTool : (name : Text) → FailsAsTool (find_tool name)
unfolding find_tool
find_tool-FailsAsTool name = record {
  at = λ r. elim (Dict.get r.tools name) as (λ o. Fails (known name o r).0) [
    | none ↦ tt
    | some tool ↦ tt
  ];
}

ruleset fails_rules =
    (FailsAsTool-bind, FailsAsTool-pure, FailsAsTool-modify, find_tool-FailsAsTool)
