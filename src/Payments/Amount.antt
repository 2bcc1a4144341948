-- ===== src/Payments/Amount.antt =====
-- `to_rial` of apps/payments/services.py, over decimal numbers.
-- Products are not rounded to the 28 digits of Python's default context: amounts and multipliers have
-- far fewer.
use native.Mathlib.Nat.{div-add-mod, mod-lt}
use whmcstemplate_bridge.Decimals.{Decimal, parse_decimal, times, rounds_up, round_half_even}
use whmcstemplate_bridge.Base.{
  if◌then◌else◌, Bool-cases, ℤ, pos, negate, runtime, Outcome, returned, raised, ℕ, ◌+◌, ◌*◌, ◌/◌,
  ◌%◌, ◌^◌, ◌≤◌, ◌<◌, String, ◌≡◌, refl, inl, inr, true, false, Option, none, some, arith,
}

-- `int(d.quantize(Decimal("1")))`
unfoldable pub to_integral : Decimal → ℤ
unfolding round_half_even
to_integral d =
    let n = round_half_even d.coefficient (10 ^ d.scale) in
    if d.negative then negate (pos n) else pos n

product : Option Decimal → Option Decimal → Outcome ℤ
unfolding to_integral
product (some m) (some a) = returned (to_integral (times a m))
product none _ = raised (runtime "InvalidOperation")
product (some m) none = raised (runtime "InvalidOperation")

-- Convert a WHMCS amount into integer rial.
unfoldable pub to_rial : (amount_multiplier : String) → (amount_whmcs : String) → Outcome ℤ
unfolding product parse_decimal
to_rial amount_multiplier amount_whmcs =
    product (parse_decimal amount_multiplier) (parse_decimal amount_whmcs)

to_rial_tests :
    (to_rial "10" "1250.50" ≡ returned (pos 12505))
    × (to_rial "1" "2.50" ≡ returned (pos 2))
    × (to_rial "1" "3.50" ≡ returned (pos 4))
    × (to_rial "1" "-0.30" ≡ returned (pos 0))
    × (to_rial "1" "" ≡ raised (runtime "InvalidOperation"))
unfolding to_rial
to_rial_tests = (refl, refl, refl, refl, refl)

up-le : (q r p : ℕ) → rounds_up q r p ≡ true → p ≤ 2 * r
up-le q r p h = ground arith

down-le : (q r p : ℕ) → rounds_up q r p ≡ false → 2 * r ≤ p
down-le q r p h = ground arith

-- The rounded quotient is within one half of the exact one.
pub round_half_even_bounds :
    (c p : ℕ)
    → 0 < p
    → (2 * (round_half_even c p * p) ≤ 2 * c + p) × (2 * c ≤ 2 * (round_half_even c p * p) + p)
unfolding round_half_even
round_half_even_bounds c p h = elim (Bool-cases (rounds_up (c / p) (c % p) p)) [
  | inl up ↦ rw up (omega (arith, up-le (c / p) (c % p) p up, div-add-mod c p, mod-lt c h))
  | inr down ↦ rw down (omega (arith, down-le (c / p) (c % p) p down, div-add-mod c p, mod-lt c h))
]
