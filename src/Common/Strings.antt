-- ===== src/Common/Strings.antt =====
-- Further methods of Python's `str`, on code points.
use Prim.Native.Nat.{ℕ, zero, suc, ◌+◌, ◌-◌, ◌*◌, ◌/◌, ◌%◌, ◌<◌}
use mathlib.Core.Path.{◌≡◌, ap, ◌∙◌}
use mathlib.Core.Bool.{Bool, true, false, ◌&&◌, ◌||◌}
use mathlib.Core.List.{List, [], ◌∷◌, ◌++◌, reverse}
use mathlib.Core.Logic.{inl, inr}
use native.Mathlib.Omega.{arith}
use production_agent_runtime.Common.Tests.{leb, ◌==◌, if◌then◌else◌, Bool-cases}
use production_agent_runtime.Common.Texts.{Text}

-- s.startswith(p)
unfoldable pub starts_with : Text → Text → Bool
starts_with s [] = true
starts_with [] (d ∷ p) = false
starts_with (c ∷ s) (d ∷ p) = c == d && starts_with s p

-- p in s
unfoldable pub has_part : Text → Text → Bool
unfolding starts_with
has_part p [] = starts_with [] p
has_part p (c ∷ s) = starts_with (c ∷ s) p || has_part p s

unfoldable pub lstrip_by : (ℕ → Bool) → Text → Text
lstrip_by test [] = []
lstrip_by test (c ∷ s) = let rest = lstrip_by test s in if test c then rest else c ∷ s

-- s.strip(chars), for a test of the characters
unfoldable pub strip_by : (ℕ → Bool) → Text → Text
unfolding lstrip_by
strip_by test s = reverse (lstrip_by test (reverse (lstrip_by test s)))

-- s.rstrip(chars)
unfoldable pub rstrip_by : (ℕ → Bool) → Text → Text
unfolding lstrip_by
rstrip_by test s = reverse (lstrip_by test (reverse s))

-- separator.join(parts)
unfoldable pub join : Text → List Text → Text
join separator [] = []
join separator (s ∷ []) = s
join separator (s ∷ t ∷ rest) = s ++ (separator ++ join separator (t ∷ rest))

-- the line boundaries of `str.splitlines`, but for "\r\n"
abbrev pub is_line_break : ℕ → Bool
is_line_break c =
    (leb 10 c && leb c 13) || (leb 28 c && leb c 30) || c == 0x85 || c == 0x2028 || c == 0x2029

abbrev push_char : ℕ → List Text → List Text
push_char c [] = (c ∷ []) ∷ []
push_char c (line ∷ lines) = (c ∷ line) ∷ lines

-- s.splitlines(): a break at the end opens no line
unfoldable pub splitlines : Text → List Text
splitlines [] = []
splitlines (c ∷ []) = if is_line_break c then [] ∷ [] else (c ∷ []) ∷ []
splitlines (c ∷ d ∷ s) =
    let rest = splitlines (d ∷ s) in
    if c == 13 && d == 10 then rest else if is_line_break c then [] ∷ rest else push_char c rest

-- the decimal digits of a number; `fuel` is a bound on their number
unfoldable pub digits : ℕ → ℕ → Text → Text
digits zero n shown = shown
digits (suc fuel) n shown =
    let more = digits fuel (n / 10) ((n % 10 + 48) ∷ shown) in
    if leb n 9 then (n + 48) ∷ shown else more

-- str(n)
unfoldable pub decimal : ℕ → Text
unfolding digits
decimal n = digits (suc n) n []

-- the number that a text of digits stands for, read on from a number
abbrev pub read_digits : ℕ → Text → ℕ
read_digits n [] = n
read_digits n (c ∷ s) = read_digits (n * 10 + (c - 48)) s

digits-read :
    (fuel n : ℕ) (shown : Text)
    → n < fuel
    → read_digits 0 (digits fuel n shown) ≡ read_digits n shown
unfolding digits
digits-read zero n shown h = elim h [ ]
digits-read (suc fuel) n shown h = elim (Bool-cases (leb n 9)) [
  | inl small ↦ rw small (ap (λ (k : ℕ). read_digits k shown) (omega arith))
  | inr large ↦
      let smaller : n / 10 < fuel = ground arith in
      rw large (
        digits-read fuel (n / 10) ((n % 10 + 48) ∷ shown) smaller
        ∙ ap (λ (k : ℕ). read_digits k shown) (omega arith))
]

-- `decimal` has fuel enough: what it shows is the number.
pub read_digits-decimal : (n : ℕ) → read_digits 0 (decimal n) ≡ n
unfolding decimal
read_digits-decimal n = digits-read (suc n) n [] (omega arith)
