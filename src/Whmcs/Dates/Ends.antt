-- ===== src/Whmcs/Dates/Ends.antt =====
-- Texts that neither begin nor end with whitespace: `str.strip` keeps them.
use Prim.Native.Char.{Char, code}
use whmcstemplate_bridge.Base.{
  Bool-cases, inl, inr, is_space, is_text, lstrip, rstrip, strip, IsDigit, ℕ, ◌/◌, ◌%◌, String, ◌≡◌,
  refl, true, false, arith,
}
use whmcstemplate_bridge.Whmcs.Dates.Spelled.{two, IsTwo}

digit_stays : (d : ℕ) (c : Char) → IsDigit d c → is_space (code c) ≡ false
digit_stays d c i = ground (arith, i.value, i.small)

-- a text with no whitespace behind it
pub record Ends (s : String) : Type 0 where
  pub full : is_text s ≡ true
  pub kept : rstrip is_space s ≡ s

pub cons-Ends : (c : Char) (s : String) → Ends s → Ends (String.◌∷◌ c s)
unfolding rstrip
cons-Ends c s e = record {
  full = refl;
  kept = elim (Bool-cases (is_space (code c))) [
    | inl space ↦ rw (e.kept, e.full, space) refl
    | inr other ↦ rw (e.kept, other) refl
  ];
}

pub two-Ends : (n : ℕ) (t : IsTwo n) → Ends (two t.tens t.ones "")
unfolding rstrip
two-Ends n t =
    cons-Ends t.tens (String.◌∷◌ t.ones "")
      (record { full = refl; kept = rw (digit_stays (n % 10) t.ones t.is_ones) refl })

pub two_cons-Ends : {n : ℕ} (t : IsTwo n) (s : String) → Ends s → Ends (two t.tens t.ones s)
two_cons-Ends t s e = cons-Ends t.tens (String.◌∷◌ t.ones s) (cons-Ends t.ones s e)

-- what begins with a digit and ends well is left as it is
pub strip-two :
    {n : ℕ} (t : IsTwo n) (s : String)
    → Ends (two t.tens t.ones s)
    → strip (two t.tens t.ones s) ≡ two t.tens t.ones s
unfolding strip lstrip
strip-two {n} t s e = rw e.kept (rw (digit_stays (n / 10) t.tens t.is_tens) refl)
