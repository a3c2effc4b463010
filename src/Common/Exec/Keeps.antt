-- ===== src/Common/Exec/Keeps.antt =====
-- Invariants of methods: one rule for each way to build a method.
use mathlib.Core.Path.{◌≡◌, refl}
use mathlib.Core.Bool.{Bool, true, false}
use production_agent_runtime.Common.Tests.{if◌then◌else◌}
use production_agent_runtime.Common.Exec.{
  Exec, Exception, Result, ok, err, pure, raise, gets, modify, continue, refuse_if, ◌>>=◌,
}

-- The method keeps Inv, whether it returns or raises.
pub record Keeps {ℓ} {S A : Type ℓ} (Inv : S → Type ℓ) (method : Exec S A) : Type ℓ where
  pub at : (s : S) → Inv s → Inv (method s).1

module _ {ℓ} {S A B : Type ℓ} {Inv : S → Type ℓ} where
  continue-Keeps :
      (r : Result A) (f : A → Exec S B) → ((a : A) → Keeps Inv (f a)) → Keeps Inv (continue r f)
  continue-Keeps (ok a) f rest_keeps = rest_keeps a
  continue-Keeps (err e) f rest_keeps = record { at = λ s h. h }

  pub Keeps-bind :
      (method : Exec S A) (f : A → Exec S B)
      → Keeps Inv method
      → ((a : A) → Keeps Inv (f a))
      → Keeps Inv (method >>= f)
  unfolding ◌>>=◌
  Keeps-bind method f method_keeps rest_keeps = record {
    at = λ s h.
        let (r, s') = method s in (continue-Keeps r f rest_keeps).at s' (method_keeps.at s h);
  }

module _ {ℓ} {S A : Type ℓ} {Inv : S → Type ℓ} where
  pub Keeps-pure : (a : A) → Keeps Inv (pure a)
  Keeps-pure a = record { at = λ s h. h }

  pub Keeps-raise : (e : Exception) → Keeps Inv (raise {A = A} e)
  Keeps-raise e = record { at = λ s h. h }

  pub Keeps-gets : (f : S → A) → Keeps Inv (gets f)
  Keeps-gets f = record { at = λ s h. h }

  pub Keeps-if :
      (b : Bool) (method n : Exec S A)
      → (b ≡ true → Keeps Inv method)
      → (b ≡ false → Keeps Inv n)
      → Keeps Inv (if b then method else n)
  Keeps-if true method n method_keeps kn = method_keeps refl
  Keeps-if false method n method_keeps kn = kn refl

module _ {S : Type 0} {Inv : S → Type 0} where
  pub Keeps-refuse_if : (b : Bool) (e : Exception) → Keeps Inv (refuse_if b e)
  Keeps-refuse_if true e = record { at = λ s h. h }
  Keeps-refuse_if false e = record { at = λ s h. h }

  pub Keeps-modify : (f : S → S) → ((s : S) → Inv s → Inv (f s)) → Keeps Inv (modify f)
  Keeps-modify f h = record { at = h }

pub ruleset keeps_rules =
    (Keeps-bind, Keeps-pure, Keeps-raise, Keeps-gets, Keeps-if, Keeps-refuse_if)

-- A condition on what is returned, when something is.
abbrev pub Returned {ℓ} : {A : Type ℓ} → Result A → (A → Type ℓ) → Type ℓ
Returned (ok a) Q = Q a
Returned (err e) Q = Unit

-- From a state with Inv the method ends in one with Inv, and what it returns has Q.
pub record Triple {ℓ} {S A : Type ℓ} (Inv : S → Type ℓ) (method : Exec S A) (Q : A → Type ℓ)
    : Type ℓ where
  pub at : (s : S) → Inv s → Inv (method s).1 × Returned (method s).0 Q

module _ {ℓ} {S A B : Type ℓ} {Inv : S → Type ℓ} where
  continue-Triple :
      {Q : A → Type ℓ} {R : B → Type ℓ} (r : Result A) (f : A → Exec S B)
      → ((a : A) → Q a → Triple Inv (f a) R)
      → (s : S) → Inv s
      → Returned r Q
      → Inv (continue r f s).1 × Returned (continue r f s).0 R
  continue-Triple (ok a) f rest_keeps s h q = (rest_keeps a q).at s h
  continue-Triple (err e) f rest_keeps s h q = (h, tt)

  pub Triple-bind :
      {Q : A → Type ℓ} {R : B → Type ℓ} (method : Exec S A) (f : A → Exec S B)
      → Triple Inv method Q
      → ((a : A) → Q a → Triple Inv (f a) R)
      → Triple Inv (method >>= f) R
  unfolding ◌>>=◌
  Triple-bind method f method_keeps rest_keeps = record {
    at = λ s h.
        let (r, s') = method s in
        continue-Triple r f rest_keeps s' (method_keeps.at s h).0 (method_keeps.at s h).1;
  }

Returned-any {ℓ} : {A : Type ℓ} (r : Result A) → Returned r (λ _. Unit)
Returned-any (ok a) = tt
Returned-any (err e) = tt

module _ {ℓ} {S A : Type ℓ} {Inv : S → Type ℓ} where
  pub Triple-pure : {Q : A → Type ℓ} (a : A) → Q a → Triple Inv (pure a) Q
  Triple-pure a q = record { at = λ s h. (h, q) }

  pub Triple-raise : {Q : A → Type ℓ} (e : Exception) → Triple Inv (raise {A = A} e) Q
  Triple-raise e = record { at = λ s h. (h, tt) }

  pub Triple-if :
      {Q : A → Type ℓ} (b : Bool) (method n : Exec S A)
      → (b ≡ true → Triple Inv method Q)
      → (b ≡ false → Triple Inv n Q)
      → Triple Inv (if b then method else n) Q
  Triple-if true method n method_keeps kn = method_keeps refl
  Triple-if false method n method_keeps kn = kn refl

  pub Triple-of_Keeps : (method : Exec S A) → Keeps Inv method → Triple Inv method (λ _. Unit)
  Triple-of_Keeps method k = record { at = λ s h. (k.at s h, Returned-any (method s).0) }

  pub Keeps-of_Triple :
      {Q : A → Type ℓ} (method : Exec S A) → Triple Inv method Q → Keeps Inv method
  Keeps-of_Triple method t = record { at = λ s h. (t.at s h).0 }

module _ {S : Type 0} {Inv : S → Type 0} where
  -- behind the guard, the test is known to have failed
  pub Triple-refuse_if : (b : Bool) (e : Exception) → Triple Inv (refuse_if b e) (λ _. b ≡ false)
  Triple-refuse_if true e = record { at = λ s h. (h, tt) }
  Triple-refuse_if false e = record { at = λ s h. (h, refl) }

-- a method that looks at the state first
module _ {ℓ} {S A X : Type ℓ} {Inv : S → Type ℓ} where
  pub Keeps-read :
      (look : S → X) (k : X → Exec S A)
      → ((x : X) → Keeps Inv (k x))
      → Keeps Inv (λ s. k (look s) s)
  Keeps-read look k kk = record { at = λ s h. (kk (look s)).at s h }

  pub Triple-read :
      {Q : A → Type ℓ} (look : S → X) (k : X → Exec S A)
      → ((x : X) → Triple Inv (k x) Q)
      → Triple Inv (λ s. k (look s) s) Q
  Triple-read look k kk = record { at = λ s h. (kk (look s)).at s h }

-- From a state with Inv the method returns in a state with Q, or raises in one with E.
abbrev pub Outcome {ℓ} : {S A : Type ℓ} → Result A → S → (S → Type ℓ) → (S → Type ℓ) → Type ℓ
Outcome (ok a) s Q E = Q s
Outcome (err e) s Q E = E s

pub record Leads {ℓ} {S A : Type ℓ} (Inv : S → Type ℓ) (method : Exec S A) (Q E : S → Type ℓ)
    : Type ℓ where
  pub at : (s : S) → Inv s → Outcome (method s).0 (method s).1 Q E

module _ {ℓ} {S A B : Type ℓ} {M Q E : S → Type ℓ} where
  continue-Leads :
      (r : Result A) (f : A → Exec S B)
      → ((a : A) → Leads M (f a) Q E)
      → (s : S) → Outcome r s M E
      → Outcome (continue r f s).0 (continue r f s).1 Q E
  continue-Leads (ok a) f rest_keeps s o = (rest_keeps a).at s o
  continue-Leads (err e) f rest_keeps s o = o

module _ {ℓ} {S A B : Type ℓ} {Inv M Q E : S → Type ℓ} where
  pub Leads-bind :
      (method : Exec S A) (f : A → Exec S B)
      → Leads Inv method M E
      → ((a : A) → Leads M (f a) Q E)
      → Leads Inv (method >>= f) Q E
  unfolding ◌>>=◌
  Leads-bind method f method_keeps rest_keeps = record {
    at = λ s h. let (r, s') = method s in continue-Leads r f rest_keeps s' (method_keeps.at s h);
  }

module _ {ℓ} {S A B : Type ℓ} {Inv Q E : S → Type ℓ} where
  continue-value :
      {V : A → Type ℓ} (r : Result A) (f : A → Exec S B)
      → ((s : S) → Inv s → E s)
      → ((a : A) → V a → Leads Inv (f a) Q E)
      → (s : S) → Inv s
      → Returned r V
      → Outcome (continue r f s).0 (continue r f s).1 Q E
  continue-value (ok a) f weaken rest_keeps s h v = (rest_keeps a v).at s h
  continue-value (err e) f weaken rest_keeps s h v = weaken s h

  -- a first part that keeps Inv, with what is known of its value
  pub Leads-bind_Triple :
      {V : A → Type ℓ} (method : Exec S A) (f : A → Exec S B)
      → ((s : S) → Inv s → E s)
      → Triple Inv method V
      → ((a : A) → V a → Leads Inv (f a) Q E)
      → Leads Inv (method >>= f) Q E
  unfolding ◌>>=◌
  Leads-bind_Triple method f weaken method_keeps rest_keeps = record {
    at = λ s h.
        let (r, s') = method s in
        continue-value r f weaken rest_keeps s' (method_keeps.at s h).0 (method_keeps.at s h).1;
  }

module _ {ℓ} {S A : Type ℓ} {Inv E : S → Type ℓ} where
  kept_outcome : (r : Result A) (s : S) → ((t : S) → Inv t → E t) → Inv s → Outcome r s Inv E
  kept_outcome (ok a) s weaken h = h
  kept_outcome (err e) s weaken h = weaken s h

  pub Leads-of_Keeps :
      (method : Exec S A) → ((s : S) → Inv s → E s) → Keeps Inv method → Leads Inv method Inv E
  Leads-of_Keeps method weaken k = record {
    at = λ s h. kept_outcome (method s).0 (method s).1 weaken (k.at s h);
  }

ended_outcome {ℓ} : {S A : Type ℓ} (Q : S → Type ℓ) (r : Result A) (s : S) → Outcome r s Q Q → Q s
ended_outcome Q (ok a) s o = o
ended_outcome Q (err e) s o = o

module _ {ℓ} {S A : Type ℓ} {Q : S → Type ℓ} where
  pub Keeps-of_Leads : (method : Exec S A) → Leads Q method Q Q → Keeps Q method
  Keeps-of_Leads method l = record {
    at = λ s h. ended_outcome Q (method s).0 (method s).1 (l.at s h);
  }
