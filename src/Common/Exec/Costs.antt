-- ===== src/Common/Exec/Costs.antt =====
-- How much of a resource a method uses at most, whether it returns or raises.
use Prim.Native.Nat.{ℕ, ◌+◌, ◌≤◌}
use native.Mathlib.Omega.{arith}
use production_agent_runtime.Common.Exec.{Exec, Result, ok, err, continue, ◌>>=◌}

-- The measure grows by n at most.
pub record Costs {S A : Type 0} (measure : S → ℕ) (n : ℕ) (method : Exec S A) : Type 0 where
  pub within : (s : S) → measure (method s).1 ≤ measure s + n

module _ {S A B : Type 0} {measure : S → ℕ} where
  continue-Costs :
      (k : ℕ) (r : Result A) (rest : A → Exec S B)
      → ((a : A) → Costs measure k (rest a))
      → (s : S) → measure (continue r rest s).1 ≤ measure s + k
  continue-Costs k (ok a) rest bound s = (bound a).within s
  continue-Costs k (err e) rest bound s = omega arith

  pub Costs-bind :
      (n k : ℕ) (method : Exec S A) (rest : A → Exec S B)
      → Costs measure n method
      → ((a : A) → Costs measure k (rest a))
      → Costs measure (n + k) (method >>= rest)
  unfolding ◌>>=◌
  Costs-bind n k method rest first later = record {
    within =
        λ s. omega (arith, first.within s, continue-Costs k (method s).0 rest later (method s).1);
  }

  -- a first part that uses nothing
  pub Costs-free_bind :
      (n : ℕ) (method : Exec S A) (rest : A → Exec S B)
      → Costs measure 0 method
      → ((a : A) → Costs measure n (rest a))
      → Costs measure n (method >>= rest)
  unfolding ◌>>=◌
  Costs-free_bind n method rest first later = record {
    within =
        λ s. omega (arith, first.within s, continue-Costs n (method s).0 rest later (method s).1);
  }

module _ {S A : Type 0} {measure : S → ℕ} where
  pub Costs-stop : (r : Result A) → Costs measure 0 (λ s. (r, s))
  Costs-stop r = record { within = λ s. omega arith }

  pub Costs-weaken :
      (n k : ℕ) (method : Exec S A) → n ≤ k → Costs measure n method → Costs measure k method
  Costs-weaken n k method le bound = record { within = λ s. omega (arith, bound.within s) }

-- a last part that uses nothing
pub Costs-bind_stop :
    {S A B : Type 0} {measure : S → ℕ} (n : ℕ) (method : Exec S A) (f : A → Result B)
    → Costs measure n method
    → Costs measure n (method >>= λ a s. (f a, s))
Costs-bind_stop n method f bound =
    Costs-weaken (n + 0) n _ (omega arith) (Costs-bind n 0 method _ bound (λ a. Costs-stop (f a)))
