-- ===== src/Whmcs/Money.antt =====
-- `to_decimal` and `to_money` of apps/whmcs/normalizers.py. `str.isdigit` is that of ASCII digits, and
-- amounts have fewer than the 28 digits beyond which `quantize` raises.
pub mod Again
use whmcstemplate_bridge.Base.{
  leb, nat_eq, if◌then◌else◌, f_string, or_text, keep_chars, strip, show, ℕ, ◌-◌, ◌*◌, ◌/◌, ◌%◌,
  ◌^◌, String, ◌≡◌, refl, Bool, false, not, ◌&&◌, ◌||◌, Option, none, some, [], ◌∷◌,
}
use whmcstemplate_bridge.Json.{Value, null, str, str_of}
use whmcstemplate_bridge.Decimals.{Decimal, parse_decimal, round_half_even}

-- `ch.isdigit() or ch in ".-"`
abbrev pub is_amount : ℕ → Bool
is_amount c = (leb 48 c && leb c 57) || nat_eq c b'.' || nat_eq c b'-'

abbrev pub is_no_comma : ℕ → Bool
is_no_comma c = not (nat_eq c b',')

abbrev pub no_money : Decimal
no_money = record { negative = false; coefficient = 0; scale = 2 }

abbrev decimal_or : Decimal → Option Decimal → Decimal
decimal_or default none = default
decimal_or default (some d) = d

-- what is kept of a text
unfoldable pub amount_text : String → String
unfolding keep_chars strip
amount_text s = keep_chars is_amount (strip (keep_chars is_no_comma s))

-- the decimal of what is kept
unfoldable pub read_amount : String → Decimal
unfolding parse_decimal
read_amount raw = decimal_or no_money (parse_decimal (or_text raw "0.00"))

-- `quantize(Decimal("0.01"))`, by its hundredths
unfoldable pub hundredths : Decimal → ℕ
unfolding round_half_even
hundredths d =
    if leb d.scale 2
    then d.coefficient * 10 ^ (2 - d.scale)
    else round_half_even d.coefficient (10 ^ (d.scale - 2))

-- `str` of a decimal with two places
unfoldable pub show_money : Bool → ℕ → String
unfolding f_string
show_money negative n = f_string (
    (if negative then "-" else "")
    ∷ show (n / 100)
    ∷ "."
    ∷ show (n % 100 / 10)
    ∷ show (n % 10)
    ∷ [])

module _ (repr : Value → String) where
  unfoldable pub to_decimal : Value → Decimal
  unfolding str_of amount_text read_amount
  to_decimal null = read_amount (amount_text "0.00")
  to_decimal value = read_amount (amount_text (str_of repr value))

  -- Money crosses the API as a decimal string.
  unfoldable pub to_money : Value → String
  unfolding to_decimal hundredths show_money
  to_money value = let d = to_decimal value in show_money d.negative (hundredths d)

  abbrev pub as_money : Value → Value
  unfolding to_money
  as_money value = str (to_money value)

to_money_tests :
    (to_money (λ _. "?") (str "1,250.505 IRR") ≡ "1250.50")
    × (to_money (λ _. "?") (str "-3") ≡ "-3.00")
    × (to_money (λ _. "?") null ≡ "0.00")
    × (to_money (λ _. "?") (str "1-2") ≡ "0.00")
unfolding to_money show
to_money_tests = (refl, refl, refl, refl)
