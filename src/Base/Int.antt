-- ===== src/Base/Int.antt =====
-- Python's `int` as signed integers over the native numbers.
use Prim.Native.Nat.{ℕ, suc, ◌+◌, ◌-◌}
use Prim.Native.Char.{code}
use Prim.Native.String
use Prim.Native.String.{String}
use mathlib.Core.Path.{◌≡◌, refl}
use mathlib.Core.Bool.{Bool, true, false}
use mathlib.Core.Option
use mathlib.Core.Option.{Option, none, some}
use native.Mathlib.Omega.{arith}
use whmcstemplate_bridge.Base.Tests.{ltb, leb, nat_eq, if◌then◌else◌}
use whmcstemplate_bridge.Base.Text.{strip, show, parse_digits}

-- `negsuc n` is -(n + 1)
pub data ℤ : Type 0 where
  pos : ℕ → ℤ
  negsuc : ℕ → ℤ

abbrev pub pos_part : ℤ → ℕ
pos_part (pos n) = n
pos_part (negsuc _) = 0

abbrev pub neg_part : ℤ → ℕ
neg_part (pos _) = 0
neg_part (negsuc n) = suc n

abbrev pub int_eq : ℤ → ℤ → Bool
int_eq (pos a) (pos b) = nat_eq a b
int_eq (negsuc a) (negsuc b) = nat_eq a b
int_eq _ _ = false

abbrev pub ltb_ℤ : ℤ → ℤ → Bool
ltb_ℤ a b = ltb (pos_part a + neg_part b) (pos_part b + neg_part a)

abbrev pub leb_ℤ : ℤ → ℤ → Bool
leb_ℤ a b = leb (pos_part a + neg_part b) (pos_part b + neg_part a)

abbrev pub negate : ℤ → ℤ
negate (pos n) = if nat_eq n 0 then pos 0 else negsuc (n - 1)
negate (negsuc n) = pos (suc n)

pub int_eq→eq : (a b : ℤ) → int_eq a b ≡ true → a ≡ b
int_eq→eq (pos a) (pos b) h = ground arith
int_eq→eq (pos a) (negsuc b) h = ground arith
int_eq→eq (negsuc a) b h = ground arith

pub int_eq_refl : (a : ℤ) → int_eq a a ≡ true
int_eq_refl (pos a) = ground arith
int_eq_refl (negsuc a) = ground arith

-- `str(n)`
unfoldable pub show_int : ℤ → String
unfolding show
show_int (pos n) = show n
show_int (negsuc n) = String.◌++◌ "-" (show (suc n))

signed : String → Option ℤ
signed String.[] = none
signed (String.◌∷◌ c s) =
    if nat_eq (code c) b'-'
    then Option.map (λ n. negate (pos n)) (parse_digits s)
    else if nat_eq (code c) b'+'
    then Option.map pos (parse_digits s)
    else Option.map pos (parse_digits (String.◌∷◌ c s))

-- `int(s)` of a text, without the underscores and the non-ASCII digits that Python admits too
unfoldable pub parse_int : String → Option ℤ
unfolding signed strip parse_digits
parse_int s = signed (strip s)

parse_int_tests :
    (parse_int " 42\n" ≡ some (pos 42))
    × (parse_int "-7" ≡ some (negsuc 6))
    × (parse_int "1.5" ≡ none)
unfolding parse_int
parse_int_tests = (refl, refl, refl)
