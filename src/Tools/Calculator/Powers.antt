-- ===== src/Tools/Calculator/Powers.antt =====
-- The bound on exponents.
use production_agent_runtime.Common.Exec.{Result}
use production_agent_runtime.Tools.Calculator.{Arithmetic}

-- the arithmetic with another power
abbrev pub with_power : {L N : Type 0} → Arithmetic L N → (N → N → Result N) → Arithmetic L N
with_power arithmetic pow = record arithmetic { pow = pow }
