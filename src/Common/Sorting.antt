-- ===== src/Common/Sorting.antt =====
-- Python's `sorted` by a Boolean order: a stable sort by insertion, whose result is ordered and has
-- the elements of the list.
use mathlib.Core.Path.{◌≡◌, refl}
use mathlib.Core.Logic.{inl, inr}
use mathlib.Core.Bool.{Bool, true, false}
use mathlib.Core.List.{List, [], ◌∷◌, Perm, Pairwise, Pairwise-singleton, forall_mem-cons}
use mathlib.Core.List.Perm
use native.Mathlib.Omega.{arith}
use production_agent_runtime.Common.Tests.{if◌then◌else◌, Bool-cases, leb, ◌==◌, ==_iff}
use production_agent_runtime.Common.Texts.{Text}

pub record IsOrder {ℓ} {A : Type ℓ} (le : A → A → Bool) : Type ℓ where
  pub total : (x y : A) → le x y ≡ false → le y x ≡ true
  pub trans : (x y z : A) → le x y ≡ true → le y z ≡ true → le x z ≡ true

module _ {ℓ} {A : Type ℓ} (le : A → A → Bool) where
  unfoldable pub insert : A → List A → List A
  insert x [] = x ∷ []
  insert x (y ∷ ys) = let rest = insert x ys in if le x y then x ∷ y ∷ ys else y ∷ rest

  unfoldable pub sort : List A → List A
  sort [] = []
  sort (x ∷ xs) = insert x (sort xs)

  abbrev pub IsSorted : List A → Type ℓ
  IsSorted = Pairwise λ x y. le x y ≡ true

  insert-perm : (x : A) (ys : List A) → Perm (insert x ys) (x ∷ ys)
  unfolding insert
  insert-perm x [] = Perm.rfl
  insert-perm x (y ∷ ys) = elim (Bool-cases (le x y)) [
    | inl below ↦ rw below Perm.rfl
    | inr above ↦ rw above (Perm.trans (Perm.cons y (insert-perm x ys)) (Perm.swap x y ys))
  ]

  pub sort-perm : (xs : List A) → Perm (sort xs) xs
  unfolding sort
  sort-perm [] = Perm.rfl
  sort-perm (x ∷ xs) = Perm.trans (insert-perm x (sort xs)) (Perm.cons x (sort-perm xs))

  module _ (order : IsOrder le) where
    insert-IsSorted : (x : A) {ys : List A} → IsSorted ys → IsSorted (insert x ys)
    unfolding insert
    insert-IsSorted x Pairwise.nil = Pairwise-singleton _ x
    insert-IsSorted x (Pairwise.cons {a = y} {l = ys} below s) = elim (Bool-cases (le x y)) [
      | inl p ↦ rw p (
          Pairwise.cons
            ((forall_mem-cons λ z. hlevel).1 (p, λ z m. order.trans x y z p (below z m)))
            (Pairwise.cons below s))
      | inr p ↦ rw p (
          Pairwise.cons
            (λ z m.
              (forall_mem-cons λ z. hlevel).1 (order.total x y p, below) z
                ((Perm.mem_iff (insert-perm x ys)).0 m))
            (insert-IsSorted x s))
    ]

    pub sort-IsSorted : (xs : List A) → IsSorted (sort xs)
    unfolding sort
    sort-IsSorted [] = Pairwise.nil
    sort-IsSorted (x ∷ xs) = insert-IsSorted x (sort-IsSorted xs)

-- s <= t
unfoldable pub text_leb : Text → Text → Bool
text_leb [] t = true
text_leb (c ∷ s) [] = false
text_leb (c ∷ s) (d ∷ t) = let rest = text_leb s t in if c == d then rest else leb c d

text_leb_total : (s t : Text) → text_leb s t ≡ false → text_leb t s ≡ true
unfolding text_leb
text_leb_total [] t p = ground (arith, p)
text_leb_total (c ∷ s) [] p = refl
text_leb_total (c ∷ s) (d ∷ t) p = ground (arith, p, text_leb_total s t, ==_iff c d, ==_iff d c)

text_leb_trans : (s t u : Text) → text_leb s t ≡ true → text_leb t u ≡ true → text_leb s u ≡ true
unfolding text_leb
text_leb_trans [] t u p q = refl
text_leb_trans (c ∷ s) [] u p q = ground (arith, p)
text_leb_trans (c ∷ s) (d ∷ t) [] p q = ground (arith, q)
text_leb_trans (c ∷ s) (d ∷ t) (e ∷ u) p q = ground (arith, p, q, text_leb_trans s t u)

pub text_leb-IsOrder : {A : Type 0} (key : A → Text) → IsOrder (λ x y. text_leb (key x) (key y))
text_leb-IsOrder key = record {
  total = λ x y. text_leb_total (key x) (key y);
  trans = λ x y z. text_leb_trans (key x) (key y) (key z);
}
