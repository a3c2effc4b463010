-- ===== src/Common/Lists.antt =====
-- Lists measured by native numbers, under the library's names, and predicates on all elements.
use Prim.Native.Nat.{ℕ, zero, suc, ◌+◌, ◌-◌, ◌≤◌, min}
use mathlib.Core.Path.{◌≡◌, refl, sym, ap, ◌∙◌}
use native.Mathlib.Nat.{add-zero, suc-add}
use mathlib.Core.Bool.{Bool}
use mathlib.Core.List.{List, [], ◌∷◌, ◌++◌, append_assoc}
use native.Mathlib.Omega.{arith}
use production_agent_runtime.Common.Tests.{if◌then◌else◌}

module _ {ℓ} {A : Type ℓ} where
  abbrev pub length : List A → ℕ
  length [] = 0
  length (x ∷ xs) = suc (length xs)

  abbrev pub take : ℕ → List A → List A
  take zero xs = []
  take (suc n) [] = []
  take (suc n) (x ∷ xs) = x ∷ take n xs

  abbrev pub drop : ℕ → List A → List A
  drop zero xs = xs
  drop (suc n) [] = []
  drop (suc n) (x ∷ xs) = drop n xs

  abbrev pub replicate : ℕ → A → List A
  replicate zero a = []
  replicate (suc n) a = a ∷ replicate n a

  -- [x for x in xs if test(x)]
  unfoldable pub keep : (A → Bool) → List A → List A
  keep test [] = []
  keep test (x ∷ xs) = let rest = keep test xs in if test x then x ∷ rest else rest

  pub length-append : (xs ys : List A) → length (xs ++ ys) ≡ length xs + length ys
  length-append [] ys = omega arith
  length-append (x ∷ xs) ys = omega (arith, length-append xs ys)

  pub length-drop : (n : ℕ) (xs : List A) → length (drop n xs) ≡ length xs - n
  length-drop zero xs = omega arith
  length-drop (suc n) [] = omega arith
  length-drop (suc n) (x ∷ xs) = omega (arith, length-drop n xs)

  pub length-take : (n : ℕ) (xs : List A) → length (take n xs) ≡ min n (length xs)
  length-take zero xs = omega arith
  length-take (suc n) [] = omega arith
  length-take (suc n) (x ∷ xs) = omega (arith, length-take n xs)

  pub length-replicate : (n : ℕ) (a : A) → length (replicate n a) ≡ n
  length-replicate zero a = refl
  length-replicate (suc n) a = ap suc (length-replicate n a)

  pub length-keep-le : (test : A → Bool) (xs : List A) → length (keep test xs) ≤ length xs
  unfolding keep
  length-keep-le test [] = omega arith
  length-keep-le test (x ∷ xs) = ground (arith, length-keep-le test xs)

-- P holds of every element; it computes to tuples.
abbrev pub All {ℓ κ} : {A : Type ℓ} → (A → Type κ) → List A → Type κ
All P [] = Unit
All P (x ∷ xs) = P x × All P xs

module _ {ℓ κ} {A : Type ℓ} (P : A → Type κ) where
  pub All-append : (xs ys : List A) → All P xs → All P ys → All P (xs ++ ys)
  All-append [] ys hx hy = hy
  All-append (x ∷ xs) ys hx hy = (hx.0, All-append xs ys hx.1 hy)

-- The last n elements.
abbrev pub take_last {ℓ} : {A : Type ℓ} → ℕ → List A → List A
take_last n xs = drop (length xs - n) xs

-- append to a deque(maxlen=n): the oldest elements are dropped from the left
unfoldable pub deque_append {ℓ} : {A : Type ℓ} → ℕ → List A → A → List A
deque_append n xs x = take_last n (xs ++ x ∷ [])

module _ {ℓ} {A : Type ℓ} where
  drop_congr : (n m : ℕ) (xs : List A) → n ≡ m → drop n xs ≡ drop m xs
  drop_congr n m xs e = rw e

  drop-drop : (m n : ℕ) (xs : List A) → drop m (drop n xs) ≡ drop (n + m) xs
  drop-drop m zero xs = drop_congr m (0 + m) xs (omega arith)
  drop-drop zero (suc n) [] = rw add-zero
  drop-drop (suc m) (suc n) [] = rw suc-add
  drop-drop m (suc n) (x ∷ xs) = rw suc-add (drop-drop m n xs)

  drop-append : (n : ℕ) (xs ys : List A) → n ≤ length xs → drop n xs ++ ys ≡ drop n (xs ++ ys)
  drop-append zero xs ys h = refl
  drop-append (suc n) [] ys h = elim h [ ]
  drop-append (suc n) (x ∷ xs) ys h = drop-append n xs ys (omega arith)

  pub length-take_last : (n : ℕ) (xs : List A) → length (take_last n xs) ≤ n
  length-take_last n xs = omega (arith, length-drop (length xs - n) xs)

  -- A bounded deque holds the last n of all that was appended.
  pub deque_append-take_last :
      (n : ℕ) (xs : List A) (x : A) → deque_append n (take_last n xs) x ≡ take_last n (xs ++ x ∷ [])
  unfolding deque_append
  deque_append-take_last n xs x =
      let ys : List A = xs ++ x ∷ [] in
      let k : ℕ = length xs - n in
      let grown : drop k xs ++ x ∷ [] ≡ drop k ys = drop-append k xs (x ∷ []) (omega arith) in
      rw grown (
        drop-drop (length (drop k ys) - n) k ys
        ∙ drop_congr _ _ ys (omega (arith, length-drop k ys, length-append xs (x ∷ []))))

  pub take_last-of_le : (n : ℕ) (xs : List A) → length xs ≤ n → take_last n xs ≡ xs
  take_last-of_le n xs h = drop_congr (length xs - n) 0 xs (omega arith)

  -- Two appends to a deque that is within its bound.
  snoc_snoc : (xs : List A) (x y : A) → (xs ++ x ∷ []) ++ y ∷ [] ≡ xs ++ x ∷ y ∷ []
  snoc_snoc xs x y = append_assoc xs (x ∷ []) (y ∷ [])

  pub deque_append_twice :
      (n : ℕ) (xs : List A) (x y : A)
      → length xs ≤ n
      → deque_append n (deque_append n xs x) y ≡ take_last n (xs ++ x ∷ y ∷ [])
  deque_append_twice n xs x y h =
      ap (λ (zs : List A). deque_append n (deque_append n zs x) y) (sym (take_last-of_le n xs h))
      ∙ ap (λ (zs : List A). deque_append n zs y) (deque_append-take_last n xs x)
      ∙ deque_append-take_last n (xs ++ x ∷ []) y
      ∙ ap (λ (zs : List A). take_last n zs) (snoc_snoc xs x y)

  pub length-deque_append : (n : ℕ) (xs : List A) (x : A) → length (deque_append n xs x) ≤ n
  unfolding deque_append
  length-deque_append n xs x = length-take_last n (xs ++ x ∷ [])
