-- ===== src/Whmcs/Dates/Spelled.antt =====
-- Dates and times spelled with two digits for a number, character by character.
use Prim.Native.Char.{Char, code}
use Prim.Native.String
use whmcstemplate_bridge.Base.{
  IsDigit, char_of, parse_digits-two, parse_digits-four, show, ℕ, ◌/◌, ◌%◌, ◌≤◌, ◌<◌, String, ◌≡◌,
  refl, ap, ◌∙◌, Bool, true, false, none, some, arith, single-append,
}
use whmcstemplate_bridge.Whmcs.Dates.{pad2}
use whmcstemplate_bridge.Whmcs.Dates.Formats.{split_at, read_number}

abbrev pub two : Char → Char → String → String
two c d s = String.◌∷◌ c (String.◌∷◌ d s)

-- the characters of a number below 100
pub record IsTwo (n : ℕ) : Type 0 where
  pub tens : Char
  pub ones : Char
  pub is_tens : IsDigit (n / 10) tens
  pub is_ones : IsDigit (n % 10) ones
  pub spelled : (s : String) → pad2 n s ≡ two tens ones s

pub two_of : (n : ℕ) → n < 100 → IsTwo n
two_of n h =
    let (c, i) = char_of (n / 10) (omega arith) in
    let (d, j) = char_of (n % 10) (omega arith) in
    record {
      tens = c;
      ones = d;
      is_tens = i;
      is_ones = j;
      spelled = λ s. ap (String.◌++◌ (show (n / 10))) (j.shown s) ∙ i.shown (String.◌∷◌ d s);
    }

module _ (p : ℕ → Bool) where
  split-pass :
      (c : Char) (s before after : String)
      → p (code c) ≡ false
      → split_at p s ≡ some (before, after)
      → split_at p (String.◌∷◌ c s) ≡ some (String.◌∷◌ c before, after)
  unfolding split_at
  split-pass c s before after other rest =
      rw other (rw rest (ap (λ t. some (t, after)) (single-append c before)))

  pub split-here :
      (c : Char) (s : String) → p (code c) ≡ true → split_at p (String.◌∷◌ c s) ≡ some ("", s)
  unfolding split_at
  split-here c s here = rw here refl

  -- where there is no separator
  pub split-empty : split_at p "" ≡ none
  unfolding split_at
  split-empty = refl

  pub split-none :
      (c : Char) (s : String)
      → p (code c) ≡ false
      → split_at p s ≡ none
      → split_at p (String.◌∷◌ c s) ≡ none
  unfolding split_at
  split-none c s other rest = rw (other, rest) refl

  -- digits stand before the separator
  module _ (other : (c : ℕ) → 48 ≤ c → c ≤ 57 → p c ≡ false) where
    pub split-digit :
        (n : ℕ) (c : Char) (s before after : String)
        → IsDigit n c
        → split_at p s ≡ some (before, after)
        → split_at p (String.◌∷◌ c s) ≡ some (String.◌∷◌ c before, after)
    split-digit n c s before after i =
        split-pass c s before after
          (other (code c) (omega (arith, i.value)) (omega (arith, i.value, i.small)))

    pub split-two :
        (n : ℕ) (t : IsTwo n) (s before after : String)
        → split_at p s ≡ some (before, after)
        → split_at p (two t.tens t.ones s) ≡ some (two t.tens t.ones before, after)
    split-two n t s before after rest =
        split-digit (n / 10) t.tens (String.◌∷◌ t.ones s) (String.◌∷◌ t.ones before) after t.is_tens
          (split-digit (n % 10) t.ones s before after t.is_ones rest)

    pub split-two_here :
        (n : ℕ) (t : IsTwo n) (c : Char) (s : String)
        → p (code c) ≡ true
        → split_at p (two t.tens t.ones (String.◌∷◌ c s)) ≡ some (two t.tens t.ones "", s)
    split-two_here n t c s here = split-two n t (String.◌∷◌ c s) "" s (split-here c s here)

    pub split-two-none :
        (n : ℕ) (t : IsTwo n) (s : String)
        → split_at p s ≡ none
        → split_at p (two t.tens t.ones s) ≡ none
    split-two-none n t s rest =
        let i = t.is_tens in
        let j = t.is_ones in
        split-none t.tens (String.◌∷◌ t.ones s)
          (other (code t.tens) (omega (arith, i.value)) (omega (arith, i.value, i.small)))
          (split-none t.ones s
            (other (code t.ones) (omega (arith, j.value)) (omega (arith, j.value, j.small))) rest)

pub read_number-two :
    (n low high : ℕ) (t : IsTwo n)
    → low ≤ n
    → n ≤ high
    → read_number 1 2 low high (two t.tens t.ones "") ≡ some n
unfolding read_number
read_number-two n low high t least most =
    rw (parse_digits-two (n / 10) (n % 10) t.tens t.ones t.is_tens t.is_ones) (ground arith)

pub read_number-four :
    (n : ℕ) (a : IsTwo (n / 100)) (b : IsTwo (n % 100))
    → n ≤ 9999
    → read_number 4 4 0 9999 (two a.tens a.ones (two b.tens b.ones "")) ≡ some n
unfolding read_number
read_number-four n a b most =
    rw
      (parse_digits-four (n / 100 / 10) (n / 100 % 10) (n % 100 / 10) (n % 100 % 10) a.tens a.ones
        b.tens b.ones a.is_tens a.is_ones b.is_tens b.is_ones)
      (ground arith)
