-- ===== src/Common.antt =====
-- The names that the other modules share: those of the libraries, passed on, and those of the
-- children (tests on numbers, lists, texts, dictionaries, exceptions and the state monad).
mod Tests
mod Lists
mod Texts
mod Stripped
pub mod Strings
pub mod Json
pub mod Sorting
pub mod Int
pub mod Dict
pub mod Exec
pub use Tests.*
unfoldable pub use Lists.{keep, deque_append}
pub use Lists.{
  length, replicate, take, drop, length-append, length-drop, length-take, length-keep-le,
  length-replicate, take_last, length-take_last, deque_append-take_last, take_last-of_le,
  deque_append_twice, length-deque_append, All, All-append,
}
unfoldable pub use Texts.{text, text_eq, strip, lstrip}
pub use Stripped.{is_blank-strip_twice}
pub use Texts.{Text, text_eq_iff, text_eq_refl, is_blank, is_space}
pub use Prim.Native.Nat.{ℕ, zero, suc, ◌+◌, ◌-◌, ◌*◌, ◌/◌, ◌%◌, ◌^◌, ◌≤◌, ◌<◌, min, max}
pub use mathlib.Core.Path.{◌≡◌, refl, sym, ap, ◌∙◌}
pub use mathlib.Core.Logic.{◌≢◌, ◌↔◌, ◌⊎◌, inl, inr}
pub use mathlib.Core.Bool.{Bool, true, false, not, ◌&&◌, ◌||◌}
pub use mathlib.Core.Option.{Option, none, some}
pub use mathlib.Core.List.{List, [], ◌∷◌, ◌++◌, map, reverse, append-nil, append_assoc}
pub use native.Mathlib.Omega.{arith}
