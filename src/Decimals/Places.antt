-- ===== src/Decimals/Places.antt =====
-- Decimals with two places, printed and read.
use Prim.Native.Char.{Char, code}
use Prim.Native.String
use whmcstemplate_bridge.Base.{
  strip, show, IsDigitThen, BeginsWithDigit, read-show, single-append, show-BeginsWithDigit,
  show-IsDigitThen, ℕ, ◌+◌, ◌-◌, ◌*◌, ◌/◌, ◌%◌, ◌≤◌, ◌<◌, String, ◌≡◌, sym, ap, ◌∙◌, Bool, true,
  false, some, arith,
}
use whmcstemplate_bridge.Decimals.{
  Decimal, parse_decimal, scan_decimal, decimal_of, unsigned_decimal, signed_decimal,
}

-- the shown amount behind the sign
abbrev pub places : ℕ → String
places n =
    String.◌++◌ (show (n / 100))
      (String.◌++◌ "." (String.◌++◌ (show (n % 100 / 10)) (String.◌++◌ (show (n % 10)) "")))

scan-digit :
    (m : ℕ) (c : Char) (s : String)
    → 48 ≤ code c
    → code c ≤ 57
    → scan_decimal m 0 false true (String.◌∷◌ c s)
      ≡ scan_decimal (m * 10 + (code c - 48)) 0 false true s
unfolding scan_decimal
scan-digit m c s low high = ground arith

scan-place :
    (m scale d : ℕ) (s t : String)
    → d < 10
    → IsDigitThen d s t
    → scan_decimal m scale true true t ≡ scan_decimal (m * 10 + d) (scale + 1) true true s
unfolding scan_decimal
scan-place m scale d s t small c =
    ap (scan_decimal m scale true true) c.is ∙ ground (arith, c.value)

-- the first digit counts as seen
scan-first :
    (t : String)
    → BeginsWithDigit t
    → scan_decimal 0 0 false false t ≡ scan_decimal 0 0 false true t
unfolding scan_decimal
scan-first t b =
    let c = b.begins in
    ap (scan_decimal 0 0 false false) c.is
    ∙ ground (arith, c.value, b.small)
    ∙ sym (ap (scan_decimal 0 0 false true) c.is)

scan-point :
    (m : ℕ) (s : String)
    → scan_decimal m 0 false true (String.◌++◌ "." s) ≡ scan_decimal m 0 true true s
unfolding scan_decimal
scan-point m s = ap (scan_decimal m 0 false true) (single-append "." s)

scan-places : (n : ℕ) → scan_decimal 0 0 false false (places n) ≡ some (n, 2)
unfolding scan_decimal
scan-places n =
    let ones = String.◌++◌ (show (n % 10)) "" in
    let tens = String.◌++◌ (show (n % 100 / 10)) ones in
    scan-first (places n) (show-BeginsWithDigit (n / 100) (String.◌++◌ "." tens))
    ∙ read-show (λ m s. scan_decimal m 0 false true s) scan-digit (n / 100) (String.◌++◌ "." tens)
    ∙ scan-point (n / 100) tens
    ∙ scan-place (n / 100) 0 (n % 100 / 10) ones tens (omega arith)
        (show-IsDigitThen (n % 100 / 10) ones (omega arith))
    ∙ scan-place (n / 100 * 10 + n % 100 / 10) 1 (n % 10) "" ones (omega arith)
        (show-IsDigitThen (n % 10) "" (omega arith))
    ∙ ap (λ k. some (k, 2)) (omega arith)

abbrev pub of_hundredths : Bool → ℕ → Decimal
of_hundredths negative n = record { negative = negative; coefficient = n; scale = 2 }

signed-places : (n : ℕ) → signed_decimal (places n) ≡ some (of_hundredths false n)
unfolding signed_decimal decimal_of
signed-places n =
    let b =
      show-BeginsWithDigit (n / 100)
        (String.◌++◌ "." (String.◌++◌ (show (n % 100 / 10)) (String.◌++◌ (show (n % 10)) ""))) in
    let c = b.begins in
    ap signed_decimal c.is
    ∙ unsigned c.char b.rest (omega (arith, c.value))
    ∙ ap (unsigned_decimal false) (sym c.is)
    ∙ ap (decimal_of false) (scan-places n)
  where
    unsigned :
        (c : Char) (s : String)
        → 48 ≤ code c
        → signed_decimal (String.◌∷◌ c s) ≡ unsigned_decimal false (String.◌∷◌ c s)
    unsigned c s low = ground arith

signed-minus : (n : ℕ) → signed_decimal (String.◌++◌ "-" (places n)) ≡ some (of_hundredths true n)
unfolding signed_decimal decimal_of
signed-minus n =
    ap signed_decimal (single-append "-" (places n)) ∙ ap (decimal_of true) (scan-places n)

pub parse-places :
    (n : ℕ) → strip (places n) ≡ places n → parse_decimal (places n) ≡ some (of_hundredths false n)
unfolding parse_decimal
parse-places n stripped = ap signed_decimal stripped ∙ signed-places n

pub parse-minus :
    (n : ℕ)
    → strip (String.◌++◌ "-" (places n)) ≡ String.◌++◌ "-" (places n)
    → parse_decimal (String.◌++◌ "-" (places n)) ≡ some (of_hundredths true n)
unfolding parse_decimal
parse-minus n stripped = ap signed_decimal stripped ∙ signed-minus n
