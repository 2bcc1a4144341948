-- ===== src/Base/Text/Digits.antt =====
-- What reads the digits of a number reads the number.
use Prim.Native.Nat.{ℕ, zero, suc, ◌+◌, ◌*◌, ◌/◌, ◌%◌, ◌-◌, ◌<◌, ◌≤◌}
use Prim.Native.Char.{Char, code}
use Prim.Native.String
use Prim.Native.String.{String}
use mathlib.Core.Path.{◌≡◌, refl, sym, ap, ◌∙◌, subst}
use mathlib.Core.Logic.{inl, inr}
use mathlib.Core.Bool.{true}
use mathlib.Core.Option.{some}
use native.Mathlib.Omega.{arith}
use text.Mathlib.TextLemmas.{append_assoc, append-nil, nil-append, cons-append}
use whmcstemplate_bridge.Base.Tests.{ltb, Bool-cases, tests}
use whmcstemplate_bridge.Base.Text.{digit, digits, show, scan, parse_digits}

pub single-append : (c : Char) (s : String) → String.◌++◌ (String.◌∷◌ c "") s ≡ String.◌∷◌ c s
single-append c s = cons-append c "" s ∙ ap (String.◌∷◌ c) (nil-append s)

-- a text that begins with a digit's character
pub record IsDigitThen (d : ℕ) (s t : String) : Type 0 where
  pub char : Char
  pub value : code char ≡ 48 + d
  pub is : t ≡ String.◌∷◌ char s

digit-IsDigitThen : (d : ℕ) (s : String) → d < 10 → IsDigitThen d s (String.◌++◌ (digit d) s)
unfolding digit
digit-IsDigitThen zero s h = record { char = "0"; value = refl; is = single-append "0" s }
digit-IsDigitThen (suc zero) s h = record { char = "1"; value = refl; is = single-append "1" s }
digit-IsDigitThen (suc (suc zero)) s h = record {
  char = "2";
  value = refl;
  is = single-append "2" s;
}
digit-IsDigitThen (suc (suc (suc zero))) s h = record {
  char = "3";
  value = refl;
  is = single-append "3" s;
}
digit-IsDigitThen (suc (suc (suc (suc zero)))) s h = record {
  char = "4";
  value = refl;
  is = single-append "4" s;
}
digit-IsDigitThen (suc (suc (suc (suc (suc zero))))) s h = record {
  char = "5";
  value = refl;
  is = single-append "5" s;
}
digit-IsDigitThen (suc (suc (suc (suc (suc (suc zero)))))) s h = record {
  char = "6";
  value = refl;
  is = single-append "6" s;
}
digit-IsDigitThen (suc (suc (suc (suc (suc (suc (suc zero))))))) s h = record {
  char = "7";
  value = refl;
  is = single-append "7" s;
}
digit-IsDigitThen (suc (suc (suc (suc (suc (suc (suc (suc zero)))))))) s h = record {
  char = "8";
  value = refl;
  is = single-append "8" s;
}
digit-IsDigitThen (suc (suc (suc (suc (suc (suc (suc (suc (suc zero))))))))) s h = record {
  char = "9";
  value = refl;
  is = single-append "9" s;
}
digit-IsDigitThen (suc (suc (suc (suc (suc (suc (suc (suc (suc (suc d)))))))))) s h =
    absurd (omega arith)

-- the first digit of a number
pub record BeginsWithDigit (t : String) : Type 0 where
  pub first : ℕ
  pub small : first < 10
  pub rest : String
  pub begins : IsDigitThen first rest t

digits-BeginsWithDigit : (fuel n : ℕ) (s : String) → n < fuel → BeginsWithDigit (digits fuel n s)
unfolding digits
digits-BeginsWithDigit zero n s h = absurd (omega arith)
digits-BeginsWithDigit (suc fuel) n s h = elim (Bool-cases (ltb n 10)) [
  | inl small ↦ rw small (record {
    first = n;
    small = omega tests;
    rest = s;
    begins = digit-IsDigitThen n s (omega tests);
  })
  | inr large ↦
      rw large (digits-BeginsWithDigit fuel (n / 10) (String.◌++◌ (digit (n % 10)) s) (omega tests))
]

module _ {ℓ} {X : Type ℓ} (read : ℕ → String → X)
    (step : (m : ℕ) (c : Char) (s : String)
      → 48 ≤ code c
      → code c ≤ 57
      → read m (String.◌∷◌ c s) ≡ read (m * 10 + (code c - 48)) s) where
  read-digit :
      (m d : ℕ) (s : String) → d < 10 → read m (String.◌++◌ (digit d) s) ≡ read (m * 10 + d) s
  read-digit m d s h =
      let c = digit-IsDigitThen d s h in
      ap (read m) c.is
      ∙ step m c.char s (omega (arith, c.value)) (omega (arith, c.value))
      ∙ ap (λ k. read k s) (omega (arith, c.value))

  read-digits : (fuel n : ℕ) (s : String) → n < fuel → read 0 (digits fuel n s) ≡ read n s
  unfolding digits
  read-digits zero n s h = absurd (omega arith)
  read-digits (suc fuel) n s h = elim (Bool-cases (ltb n 10)) [
    | inl small ↦ rw small (read-digit 0 n s (omega tests) ∙ ap (λ k. read k s) (omega arith))
    | inr large ↦ rw large (
        read-digits fuel (n / 10) (String.◌++◌ (digit (n % 10)) s) (omega tests)
        ∙ read-digit (n / 10) (n % 10) s (omega arith)
        ∙ ap (λ k. read k s) (omega arith))
  ]

digits-append :
    (fuel n : ℕ) (s t : String) → String.◌++◌ (digits fuel n s) t ≡ digits fuel n (String.◌++◌ s t)
unfolding digits
digits-append zero n s t = refl
digits-append (suc fuel) n s t = elim (Bool-cases (ltb n 10)) [
  | inl small ↦ rw small (append_assoc (digit n) s t)
  | inr large ↦ rw large (
      digits-append fuel (n / 10) (String.◌++◌ (digit (n % 10)) s) t
      ∙ ap (digits fuel (n / 10)) (append_assoc (digit (n % 10)) s t))
]

-- What takes a digit by `m * 10 + d` takes a shown number by its value.
module _ {ℓ} {X : Type ℓ} (read : ℕ → String → X)
    (step : (m : ℕ) (c : Char) (s : String)
      → 48 ≤ code c
      → code c ≤ 57
      → read m (String.◌∷◌ c s) ≡ read (m * 10 + (code c - 48)) s) where
  pub read-show : (n : ℕ) (s : String) → read 0 (String.◌++◌ (show n) s) ≡ read n s
  unfolding show
  read-show n s =
      ap (read 0) (digits-append (suc n) n "" s)
      ∙ ap (λ t. read 0 (digits (suc n) n t)) (nil-append s)
      ∙ read-digits read step (suc n) n s (omega arith)

show-append : (n : ℕ) (s : String) → String.◌++◌ (show n) s ≡ digits (suc n) n s
unfolding show
show-append n s = digits-append (suc n) n "" s ∙ ap (digits (suc n) n) (nil-append s)

pub show-BeginsWithDigit : (n : ℕ) (s : String) → BeginsWithDigit (String.◌++◌ (show n) s)
show-BeginsWithDigit n s =
    subst BeginsWithDigit (sym (show-append n s)) (digits-BeginsWithDigit (suc n) n s (omega arith))

pub show-IsDigitThen : (d : ℕ) (s : String) → d < 10 → IsDigitThen d s (String.◌++◌ (show d) s)
unfolding digits
show-IsDigitThen d s h =
    let small : ltb d 10 ≡ true = ground arith in
    subst (IsDigitThen d s) (sym (show-append d s ∙ rw small refl)) (digit-IsDigitThen d s h)

-- the character of a digit
pub record IsDigit (d : ℕ) (c : Char) : Type 0 where
  pub value : code c ≡ 48 + d
  pub small : d < 10
  pub shown : (s : String) → String.◌++◌ (show d) s ≡ String.◌∷◌ c s

pub char_of : (d : ℕ) → d < 10 → (c : Char) × IsDigit d c
char_of d h =
    let t = show-IsDigitThen d "" h in
    let alone : show d ≡ String.◌∷◌ t.char "" = sym (append-nil (show d)) ∙ t.is in
    (
      t.char,
      record {
        value = t.value;
        small = h;
        shown = λ s. ap (λ k. String.◌++◌ k s) alone ∙ single-append t.char s;
      },
    )

scan-digit :
    (m d : ℕ) (c : Char) (s : String) → IsDigit d c → scan m (String.◌∷◌ c s) ≡ scan (m * 10 + d) s
unfolding scan
scan-digit m d c s i = ground (arith, i.value, i.small)

-- two and four digits are read
pub parse_digits-two :
    (a b : ℕ) (c d : Char)
    → IsDigit a c
    → IsDigit b d
    → parse_digits (String.◌∷◌ c (String.◌∷◌ d "")) ≡ some (a * 10 + b)
unfolding parse_digits
parse_digits-two a b c d i j =
    let s : String = String.◌∷◌ d "" in
    scan-digit 0 a c s i ∙ scan-digit (0 * 10 + a) b d "" j ∙ ap some (omega arith)

pub parse_digits-four :
    (a b a' b' : ℕ) (c d c' d' : Char)
    → IsDigit a c
    → IsDigit b d
    → IsDigit a' c'
    → IsDigit b' d'
    → parse_digits (String.◌∷◌ c (String.◌∷◌ d (String.◌∷◌ c' (String.◌∷◌ d' ""))))
      ≡ some ((a * 10 + b) * 100 + (a' * 10 + b'))
unfolding parse_digits
parse_digits-four a b a' b' c d c' d' i j i' j' =
    let s : String = String.◌∷◌ d' "" in
    let t : String = String.◌∷◌ c' s in
    scan-digit 0 a c (String.◌∷◌ d t) i
    ∙ scan-digit (0 * 10 + a) b d t j
    ∙ scan-digit ((0 * 10 + a) * 10 + b) a' c' s i'
    ∙ scan-digit (((0 * 10 + a) * 10 + b) * 10 + a') b' d' "" j'
    ∙ ap some (omega arith)
