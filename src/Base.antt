-- ===== src/Base.antt =====
-- What the modules share: the libraries' names, passed on, tests, lists, texts, integers, the
-- exceptions of the program and the monad of its stateful code.
mod Tests
mod Lists
mod Text
mod Int
pub mod Errors
mod Monad
mod Frames
pub use Tests.*
pub use Lists.*
unfoldable pub use Text.{
  f_string, prefix, is_text, or_text, one_of, keep_chars, is_space, lstrip, rstrip, strip, contains,
  show, parse_digits,
}
pub use Text.Digits.{
  IsDigitThen, BeginsWithDigit, read-show, IsDigit, char_of, parse_digits-two, parse_digits-four,
  single-append, show-BeginsWithDigit, show-IsDigitThen,
}
unfoldable pub use Int.{show_int, parse_int}
pub use Int.{
  ℤ, pos, negsuc, pos_part, neg_part, int_eq, ltb_ℤ, leb_ℤ, negate, int_eq→eq, int_eq_refl,
}
pub use Errors.*
pub use Monad.*
pub use Frames.*
pub use Prim.Native.Nat.{ℕ, zero, suc, ◌+◌, ◌-◌, ◌*◌, ◌/◌, ◌%◌, ◌^◌, ◌≤◌, ◌<◌}
pub use Prim.Native.String.{String}
pub use mathlib.Core.Path.{◌≡◌, refl, sym, ap, ◌∙◌, subst}
pub use mathlib.Core.Logic.{◌≢◌, ◌↔◌, ◌⊎◌, inl, inr}
pub use mathlib.Core.Bool.{Bool, true, false, not, ◌&&◌, ◌||◌}
pub use mathlib.Core.Option.{Option, none, some}
pub use mathlib.Core.List.{List, [], ◌∷◌, ◌++◌}
pub use native.Mathlib.Omega.{arith}
pub use text.Mathlib.Text.{◌==◌}
pub use text.Mathlib.TextEquality.{eq_iff}
