-- ===== src/Config/Loaded.antt =====
-- What `load` of config.py promises.
use production_agent_runtime.Common.Json.{Json}
use production_agent_runtime.Common.Exec.{Exception, Result, ok, err, configuration_error}

abbrev pub IsConfigurationError : Exception → Type 0
IsConfigurationError (configuration_error m) = Unit
IsConfigurationError e = ⊥

-- a result with P, or a configuration error
abbrev pub Outcome : {A : Type 0} → (A → Type 0) → Result A → Type 0
Outcome P (ok a) = P a
Outcome P (err e) = IsConfigurationError e

pub record Gives {A : Type 0} (P : A → Type 0) (r : Result A) : Type 0 where
  pub outcome : Outcome P r
