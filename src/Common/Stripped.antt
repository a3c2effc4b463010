-- ===== src/Common/Stripped.antt =====
-- What `str.strip` leaves of a text is blank exactly if the text has spaces only.
use mathlib.Core.Path.{◌≡◌, refl, ap, ◌∙◌, sym}
use mathlib.Core.Logic.{inl, inr}
use mathlib.Core.Bool.{Bool, true, false, ◌&&◌, ◌||◌, not}
use mathlib.Core.List.{[], ◌∷◌, reverse, reverse_aux}
use native.Mathlib.Omega.{arith}
use production_agent_runtime.Common.Tests.{Bool-cases}
use production_agent_runtime.Common.Texts.{Text, is_space, is_blank, lstrip, strip}

-- whether a character is no space
unfoldable has_ink : Text → Bool
has_ink [] = false
has_ink (c ∷ s) = not (is_space c) || has_ink s

swap_or : (a b c : Bool) → (b || (a || c)) ≡ ((a || b) || c)
swap_or a b c = ground arith

has_ink-reverse_aux : (s t : Text) → has_ink (reverse_aux s t) ≡ (has_ink s || has_ink t)
unfolding has_ink
has_ink-reverse_aux [] t = refl
has_ink-reverse_aux (c ∷ s) t =
    has_ink-reverse_aux s (c ∷ t) ∙ swap_or (not (is_space c)) (has_ink s) (has_ink t)

or_false : (a : Bool) → (a || false) ≡ a
or_false a = ground arith

has_ink-reverse : (s : Text) → has_ink (reverse s) ≡ has_ink s
unfolding has_ink
has_ink-reverse s = has_ink-reverse_aux s [] ∙ or_false (has_ink s)

and_false : (a : Bool) → (a && false) ≡ false
and_false a = ground arith

is_blank-reverse_aux : (s t : Text) → is_blank (reverse_aux s t) ≡ (is_blank s && is_blank t)
is_blank-reverse_aux [] t = refl
is_blank-reverse_aux (c ∷ s) t = is_blank-reverse_aux s (c ∷ t) ∙ and_false (is_blank s)

and_true : (a : Bool) → (a && true) ≡ a
and_true a = ground arith

is_blank-reverse : (s : Text) → is_blank (reverse s) ≡ is_blank s
is_blank-reverse s = is_blank-reverse_aux s [] ∙ and_true (is_blank s)

has_ink-lstrip : (s : Text) → has_ink (lstrip s) ≡ has_ink s
unfolding has_ink lstrip
has_ink-lstrip [] = refl
has_ink-lstrip (c ∷ s) = elim (Bool-cases (is_space c)) [
  | inl space ↦ rw space (has_ink-lstrip s)
  | inr ink ↦ rw ink (rw ink refl)
]

is_blank-lstrip : (s : Text) → is_blank (lstrip s) ≡ not (has_ink s)
unfolding has_ink lstrip
is_blank-lstrip [] = refl
is_blank-lstrip (c ∷ s) = elim (Bool-cases (is_space c)) [
  | inl space ↦ rw space (is_blank-lstrip s)
  | inr ink ↦ rw ink refl
]

has_ink-strip : (s : Text) → has_ink (strip s) ≡ has_ink s
unfolding strip
has_ink-strip s =
    has_ink-reverse (lstrip (reverse (lstrip s)))
    ∙ has_ink-lstrip (reverse (lstrip s))
    ∙ has_ink-reverse (lstrip s)
    ∙ has_ink-lstrip s

is_blank-strip : (s : Text) → is_blank (strip s) ≡ not (has_ink s)
unfolding strip
is_blank-strip s =
    is_blank-reverse (lstrip (reverse (lstrip s)))
    ∙ is_blank-lstrip (reverse (lstrip s))
    ∙ ap not (has_ink-reverse (lstrip s) ∙ has_ink-lstrip s)

-- A second strip does not change whether something is left.
pub is_blank-strip_twice : (s : Text) → is_blank (strip (strip s)) ≡ is_blank (strip s)
is_blank-strip_twice s =
    is_blank-strip (strip s) ∙ ap not (has_ink-strip s) ∙ sym (is_blank-strip s)
