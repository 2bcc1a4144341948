-- ===== src/Whmcs/Money/Again.antt =====
-- Money that is read again.
use Prim.Native.Char.{code}
use Prim.Native.String
use text.Mathlib.TextLemmas.{nil-append}
use whmcstemplate_bridge.Base.{
  Bool-cases, keep_chars, is_space, lstrip, rstrip, strip, show, read-show, single-append, ℕ, ◌/◌,
  ◌%◌, ◌≤◌, String, ◌≡◌, refl, ap, ◌∙◌, subst, inl, inr, Bool, true, false, not, ◌&&◌, some, arith,
}
use whmcstemplate_bridge.Json.{Value, str, str_of}
use whmcstemplate_bridge.Decimals.{Decimal, parse_decimal}
use whmcstemplate_bridge.Decimals.Places.{places, of_hundredths, parse-places, parse-minus}
use whmcstemplate_bridge.Whmcs.Money.{
  decimal_or, is_amount, is_no_comma, no_money, amount_text, read_amount, hundredths, show_money,
  to_decimal, to_money,
}

-- every character passes a test
all_chars : (ℕ → Bool) → String → Bool
all_chars p String.[] = true
all_chars p (String.◌∷◌ c s) = p (code c) && all_chars p s

module _ (p : ℕ → Bool) where
  keep_chars-all : (s : String) → all_chars p s ≡ true → keep_chars p s ≡ s
  unfolding keep_chars all_chars
  keep_chars-all String.[] h = refl
  keep_chars-all (String.◌∷◌ c s) h = elim (Bool-cases (p (code c))) [
    | inl good ↦ rw good (ap (String.◌∷◌ c) (keep_chars-all s (rw good at h)))
    | inr bad ↦ absurd (cc (rw bad at h))
  ]

  all_chars-show :
      ((c : ℕ) → 48 ≤ c → c ≤ 57 → p c ≡ true)
      → (n : ℕ) (s : String) → all_chars p (String.◌++◌ (show n) s) ≡ all_chars p s
  unfolding all_chars
  all_chars-show digits n s =
      read-show (λ m t. all_chars p t) (λ m c t low high. rw (digits (code c) low high) refl) n s

-- a character that stays
abbrev stays : ℕ → Bool
stays c = not (is_space c)

rstrip-none : (s : String) → all_chars stays s ≡ true → rstrip is_space s ≡ s
unfolding rstrip all_chars
rstrip-none String.[] h = refl
rstrip-none (String.◌∷◌ c s) h = elim (Bool-cases (is_space (code c))) [
  | inl space ↦ absurd (cc (rw space at h))
  | inr other ↦ let rest = rstrip-none s (rw other at h) in rw rest (rw other refl)
]

lstrip-none : (s : String) → all_chars stays s ≡ true → lstrip is_space s ≡ s
unfolding lstrip all_chars
lstrip-none String.[] h = refl
lstrip-none (String.◌∷◌ c s) h = elim (Bool-cases (is_space (code c))) [
  | inl space ↦ absurd (cc (rw space at h))
  | inr other ↦ rw other refl
]

strip-none : (s : String) → all_chars stays s ≡ true → strip s ≡ s
unfolding strip
strip-none s h = rw (rstrip-none s h) (lstrip-none s h)

places-all :
    (p : ℕ → Bool)
    → ((c : ℕ) → 48 ≤ c → c ≤ 57 → p c ≡ true)
    → p b'.' ≡ true
    → (n : ℕ) → all_chars p (places n) ≡ true
unfolding all_chars
places-all p digits point n =
    all_chars-show p digits (n / 100) _
    ∙ ap (all_chars p)
        (single-append "." (String.◌++◌ (show (n % 100 / 10)) (String.◌++◌ (show (n % 10)) "")))
    ∙ rw point (all_chars-show p digits (n % 100 / 10) _ ∙ all_chars-show p digits (n % 10) _)

-- every character of a shown amount passes a test that digits, the point and the minus pass
show_money-all :
    (p : ℕ → Bool)
    → ((c : ℕ) → 48 ≤ c → c ≤ 57 → p c ≡ true)
    → p b'.' ≡ true
    → p b'-' ≡ true
    → (negative : Bool) (n : ℕ) → all_chars p (show_money negative n) ≡ true
unfolding show_money all_chars
show_money-all p digits point minus true n =
    ap (all_chars p) (single-append "-" (places n)) ∙ rw minus (places-all p digits point n)
show_money-all p digits point minus false n =
    ap (all_chars p) (nil-append (places n)) ∙ places-all p digits point n

amount_text-show_money :
    (negative : Bool) (n : ℕ) → amount_text (show_money negative n) ≡ show_money negative n
unfolding amount_text
amount_text-show_money negative n =
    rw
      (keep_chars-all is_no_comma (show_money negative n)
        (show_money-all is_no_comma (λ c low high. ground arith) refl refl negative n))
      (rw
        (strip-none (show_money negative n)
          (show_money-all stays (λ c low high. ground arith) refl refl negative n))
        (keep_chars-all is_amount (show_money negative n)
          (show_money-all is_amount (λ c low high. ground arith) refl refl negative n)))

strip-show_money : (negative : Bool) (n : ℕ) → strip (show_money negative n) ≡ show_money negative n
strip-show_money negative n =
    strip-none (show_money negative n)
      (show_money-all stays (λ c low high. ground arith) refl refl negative n)

parse-show_money :
    (negative : Bool) (n : ℕ)
    → parse_decimal (show_money negative n) ≡ some (of_hundredths negative n)
unfolding show_money
parse-show_money true n = parse-minus n (strip-show_money true n)
parse-show_money false n =
    ap parse_decimal (nil-append (places n))
    ∙ parse-places n (subst (λ t. strip t ≡ t) (nil-append (places n)) (strip-show_money false n))

read_amount-some : (raw : String) (d : Decimal) → parse_decimal raw ≡ some d → read_amount raw ≡ d
unfolding read_amount
read_amount-some String.[] d h = absurd (cc h)
read_amount-some (String.◌∷◌ c s) d h = ap (decimal_or no_money) h

to_decimal-show_money :
    (repr : Value → String) (negative : Bool) (n : ℕ)
    → to_decimal repr (str (show_money negative n)) ≡ of_hundredths negative n
unfolding to_decimal str_of
to_decimal-show_money repr negative n =
    ap read_amount (amount_text-show_money negative n)
    ∙ read_amount-some (show_money negative n) (of_hundredths negative n)
        (parse-show_money negative n)

hundredths-of_hundredths : (negative : Bool) (n : ℕ) → hundredths (of_hundredths negative n) ≡ n
unfolding hundredths
hundredths-of_hundredths negative n = omega arith

-- Money that was written is read back as it was written: `to_money` of a text that `to_money` gave is
-- that text, whatever the value was.
pub to_money-again :
    (repr : Value → String) (v : Value) → to_money repr (str (to_money repr v)) ≡ to_money repr v
unfolding to_money
to_money-again repr v =
    let d = to_decimal repr v in
    ap (λ (e : Decimal). show_money e.negative (hundredths e))
      (to_decimal-show_money repr d.negative (hundredths d))
    ∙ ap (show_money d.negative) (hundredths-of_hundredths d.negative (hundredths d))
