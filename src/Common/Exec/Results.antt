-- ===== src/Common/Exec/Results.antt =====
-- Pure code that may raise: do blocks of results.
use production_agent_runtime.Common.Exec.{Result, ok, err}

infixl 10 ◌>>=◌ ◌>>◌
unfoldable pub ◌>>=◌ {ℓ} : {A B : Type ℓ} → Result A → (A → Result B) → Result B
ok a >>= f = f a
err e >>= f = err e

abbrev pub ◌>>◌ {ℓ} : {A B : Type ℓ} → Result A → Result B → Result B
ok a >> later = later
err e >> later = err e
