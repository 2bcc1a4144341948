-- ===== src/Decimals.antt =====
-- Python's decimal numbers, as `Decimal(s)` reads them and `quantize` rounds them.
-- A decimal is read without exponent, underscores, infinities or NaN.
pub mod Places
use Prim.Native.Char.{code}
use whmcstemplate_bridge.Base.{
  ltb, leb, nat_eq, if◌then◌else◌, strip, ℕ, ◌+◌, ◌-◌, ◌*◌, ◌/◌, ◌%◌, String, Bool, true, false,
  not, ◌&&◌, ◌||◌, Option, none, some,
}

pub record Decimal : Type 0 where
  pub negative : Bool
  pub coefficient : ℕ
  pub scale : ℕ

-- the digits, and how many of them stand behind the point
scan_decimal : ℕ → ℕ → (dot seen : Bool) → String → Option (ℕ × ℕ)
scan_decimal n scale dot seen String.[] = if seen then some (n, scale) else none
scan_decimal n scale dot seen (String.◌∷◌ c s) =
    let point = scan_decimal n scale true seen s in
    let more =
      scan_decimal (n * 10 + (code c - 48)) (if dot then scale + 1 else scale) dot true s in
    if nat_eq (code c) b'.' && not dot
    then point
    else if leb 48 (code c) && leb (code c) 57
    then more
    else none

decimal_of : Bool → Option (ℕ × ℕ) → Option Decimal
decimal_of negative none = none
decimal_of negative (some (n, scale)) =
    some (record { negative = negative; coefficient = n; scale = scale })

unsigned_decimal : Bool → String → Option Decimal
unfolding scan_decimal decimal_of
unsigned_decimal negative s = decimal_of negative (scan_decimal 0 0 false false s)

signed_decimal : String → Option Decimal
unfolding unsigned_decimal
signed_decimal String.[] = none
signed_decimal (String.◌∷◌ c s) =
    if nat_eq (code c) b'-'
    then unsigned_decimal true s
    else if nat_eq (code c) b'+'
    then unsigned_decimal false s
    else unsigned_decimal false (String.◌∷◌ c s)

-- `Decimal(s)`; `none` is `InvalidOperation`
unfoldable pub parse_decimal : String → Option Decimal
unfolding signed_decimal strip
parse_decimal s = signed_decimal (strip s)

-- `a * b`
abbrev pub times : Decimal → Decimal → Decimal
times a b = record {
  negative = if a.negative then not b.negative else b.negative;
  coefficient = a.coefficient * b.coefficient;
  scale = a.scale + b.scale;
}

-- whether q + r / p is rounded up, to the nearest whole number and from a half to the even one
abbrev pub rounds_up : ℕ → ℕ → ℕ → Bool
rounds_up q r p = ltb p (2 * r) || (nat_eq (2 * r) p && nat_eq (q % 2) 1)

unfoldable pub round_half_even : ℕ → ℕ → ℕ
round_half_even c p = if rounds_up (c / p) (c % p) p then c / p + 1 else c / p
