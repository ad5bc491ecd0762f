-- ===== src/Base/Decimals.antt =====
-- Python's `decimal.Decimal` by value, finite numbers only: `units` counts multiples of 10 ^ -scale. The
-- arithmetic rounds its exact result half-even to the 28 significant digits of the context that the engine runs
-- in. Exponents are not bounded (Python's range is ±999999).
use Prim.Native.Nat.{ℕ, zero, suc, ◌+◌, ◌*◌, ◌/◌, ◌%◌, ◌-◌, ◌^◌, ◌<◌, max}
use mathlib.Core.Path.{◌≡◌, refl}
use mathlib.Core.Bool.{Bool, true, false, not, ◌&&◌}
use native.Mathlib.Omega.{arith}
use turtle_qts_execution.Base.Tests.{◌==◌, ltb, lt→ltb, if◌then◌else◌}
use turtle_qts_execution.Base.Integers.{ℤ, pos, ◌+ℤ◌, ◌-ℤ◌, ◌*ℤ◌, ltb_ℤ, abs_ℤ, neg_part, sub_ℕ}
use turtle_qts_execution.Base.Outcomes.{Outcome, ok, err, zero_division}

pub record Decimal : Type 0 where
  pub units : ℤ
  pub scale : ℕ

abbrev pub dec : ℕ → Decimal
dec n = record { units = pos n; scale = 0 }

-- Integer division, to the nearest, a tie to the even neighbour.
unfoldable pub half_even : ℕ → ℕ → ℕ
half_even n d =
    let q = n / d in
    let r = n % d in
    if ltb (2 * r) d then q else if ltb d (2 * r) then q + 1 else if q % 2 == 0 then q else q + 1

-- How many digits a number has beyond the given count of them.
unfoldable pub excess : ℕ → ℕ → ℕ → ℕ
excess zero prec n = 0
excess (suc fuel) prec n = elim (ltb n (10 ^ prec)) [
  | true ↦ 0
  | false ↦ suc (excess fuel prec (n / 10))
]

unfoldable pub round28 : ℕ → ℕ
round28 n = let d = 10 ^ excess n 28 n in half_even n d * d

abbrev pub signed : ℕ → ℕ → ℤ
signed neg n = if neg == 0 then pos n else sub_ℕ 0 n

unfoldable pub rounded : ℤ → ℤ
rounded a = signed (neg_part a) (round28 (abs_ℤ a))

-- Both numbers' units at a common scale.
abbrev pub left_units : Decimal → Decimal → ℤ
left_units a b = a.units *ℤ pos (10 ^ (max a.scale b.scale - a.scale))

abbrev pub right_units : Decimal → Decimal → ℤ
right_units a b = b.units *ℤ pos (10 ^ (max a.scale b.scale - b.scale))

unfoldable pub add_dec : Decimal → Decimal → Decimal
add_dec a b = record {
  units = rounded (left_units a b +ℤ right_units a b);
  scale = max a.scale b.scale;
}

unfoldable pub sub_dec : Decimal → Decimal → Decimal
sub_dec a b = record {
  units = rounded (left_units a b -ℤ right_units a b);
  scale = max a.scale b.scale;
}

unfoldable pub mul_dec : Decimal → Decimal → Decimal
mul_dec a b = record { units = rounded (a.units *ℤ b.units); scale = a.scale + b.scale }

unfoldable pub neg_dec : Decimal → Decimal
neg_dec a = record { units = rounded (pos 0 -ℤ a.units); scale = a.scale }

unfoldable pub abs_dec : Decimal → Decimal
abs_dec a = record { units = pos (round28 (abs_ℤ a.units)); scale = a.scale }

-- The quotient to more than 28 digits, a last digit that keeps a cut remainder from looking like a tie or like
-- no remainder, and one rounding.
unfoldable pub quotient : Decimal → Decimal → Decimal
quotient a b =
    let p = abs_ℤ a.units * 10 ^ b.scale in
    let d = abs_ℤ b.units * 10 ^ a.scale in
    let s = 29 + excess d 0 d in
    let q = p * 10 ^ s / d in
    let sticky = if p * 10 ^ s % d == 0 then q else if q % 5 == 0 then q + 1 else q in
    let opposite = if ltb_ℤ (a.units *ℤ b.units) (pos 0) then 1 else 0 in
    record { units = signed opposite (round28 sticky); scale = s }

-- DivisionByZero, else the quotient.
unfoldable pub div_dec : Decimal → Decimal → Outcome Decimal
div_dec a b = if abs_ℤ b.units == 0 then err zero_division else ok (quotient a b)

unfoldable pub lt_dec : Decimal → Decimal → Bool
lt_dec a b = ltb_ℤ (left_units a b) (right_units a b)

-- `a == b`
unfoldable pub eq_dec : Decimal → Decimal → Bool
eq_dec a b = not (lt_dec a b) && not (lt_dec b a)

-- `a <= b`
abbrev pub le_dec : Decimal → Decimal → Bool
le_dec a b = not (lt_dec b a)

pub excess-small : (fuel prec n : ℕ) → n < 10 ^ prec → excess fuel prec n ≡ 0
unfolding excess
excess-small zero prec n h = refl
excess-small (suc fuel) prec n h = ground (arith, lt→ltb n (10 ^ prec) h)

pub half_even_one : (n : ℕ) → half_even n 1 ≡ n
unfolding half_even
half_even_one n = ground arith

-- A number of at most 28 digits is not rounded.
pub round28-small : (n : ℕ) → n < 10 ^ 28 → round28 n ≡ n
unfolding round28
round28-small n h = ground (arith, excess-small n 28 n h, half_even_one n)
