-- ===== src/Base/Exact.antt =====
-- Sums of decimals that share a scale and stay within 28 digits are exact.
use Prim.Native.Nat.{ℕ, suc, ◌+◌, ◌-◌, ◌^◌, ◌<◌, ◌≤◌, max}
use mathlib.Core.Path.{◌≡◌, refl, ap, ◌∙◌}
use mathlib.Core.Logic.{◌⊎◌, inl, inr}
use mathlib.Core.Bool.{true}
use native.Mathlib.Omega.{arith}
use turtle_qts_execution.Base.Integers.{ℤ, pos, negsuc, pos_part, neg_part, ◌+ℤ◌, ◌-ℤ◌, ◌*ℤ◌, abs_ℤ}
use turtle_qts_execution.Base.Tests.{le→ltb}
use turtle_qts_execution.Base.Decimals.{
  Decimal, dec, rounded, round28-small, add_dec, sub_dec, lt_dec, eq_dec, left_units, right_units,
}

pub +ℤ_parts :
    (a b : ℤ)
    → pos_part (a +ℤ b) + (neg_part a + neg_part b) ≡ neg_part (a +ℤ b) + (pos_part a + pos_part b)
unfolding ◌+ℤ◌
+ℤ_parts a b = ground arith

pub -ℤ_parts :
    (a b : ℤ)
    → pos_part (a -ℤ b) + (neg_part a + pos_part b) ≡ neg_part (a -ℤ b) + (pos_part a + neg_part b)
unfolding ◌-ℤ◌
-ℤ_parts a b = ground arith

abs-add : (a b : ℤ) → abs_ℤ (a +ℤ b) ≤ abs_ℤ a + abs_ℤ b
unfolding ◌+ℤ◌
abs-add a b = ground arith

abs-sub : (a b : ℤ) → abs_ℤ (a -ℤ b) ≤ abs_ℤ a + abs_ℤ b
unfolding ◌-ℤ◌
abs-sub a b = ground arith

rounded-small : (a : ℤ) → abs_ℤ a < 10 ^ 28 → rounded a ≡ a
unfolding rounded
rounded-small (pos n) h = ground (arith, round28-small n (omega arith))
rounded-small (negsuc n) h = ground (arith, round28-small (suc n) (omega arith))

times_one : (a : ℤ) → a *ℤ pos 1 ≡ a
unfolding ◌*ℤ◌
times_one a = ground arith

zero_times : (n : ℕ) → pos 0 *ℤ pos n ≡ pos 0
unfolding ◌*ℤ◌
zero_times n = ground arith

max_self : (n : ℕ) → max n n - n ≡ 0
max_self n = omega arith

max_zero : (n : ℕ) → max n 0 - n ≡ 0
max_zero n = omega arith

zero_max_self : (n : ℕ) → max 0 n - n ≡ 0
zero_max_self n = omega arith

pub eq_of_parts : (a b : ℤ) → pos_part a + neg_part b ≡ pos_part b + neg_part a → a ≡ b
eq_of_parts a b h = ground arith

pub ruleset int_laws = (arith, +ℤ_parts, -ℤ_parts, eq_of_parts)

-- A number of the scale, or the zero that an account starts with, of a limited size.
pub record Fits (scale most : ℕ) (d : Decimal) : Type 0 where
  pub small : abs_ℤ d.units ≤ most
  pub scaled : (d.scale ≡ scale) ⊎ (d ≡ dec 0)

left_exact :
    (scale m k : ℕ) (a b : Decimal) → Fits scale m a → Fits scale k b → left_units a b ≡ a.units
left_exact scale m k a b fa fb = aligned fa.scaled fb.scaled
  where
    aligned :
        (a.scale ≡ scale) ⊎ (a ≡ dec 0) → (b.scale ≡ scale) ⊎ (b ≡ dec 0) → left_units a b ≡ a.units
    aligned (inl p) (inl q) = rw (p, q, max_self scale) (times_one a.units)
    aligned (inl p) (inr q) = rw (p, q, max_zero scale) (times_one a.units)
    aligned (inr p) q = rw p (zero_times (10 ^ (max 0 b.scale - 0)))

right_exact :
    (scale m k : ℕ) (a b : Decimal) → Fits scale m a → Fits scale k b → right_units a b ≡ b.units
right_exact scale m k a b fa fb = aligned fa.scaled fb.scaled
  where
    aligned :
        (a.scale ≡ scale) ⊎ (a ≡ dec 0)
        → (b.scale ≡ scale) ⊎ (b ≡ dec 0)
        → right_units a b ≡ b.units
    aligned (inl p) (inl q) = rw (p, q, max_self scale) (times_one b.units)
    aligned (inr p) (inl q) = rw (p, q, zero_max_self scale) (times_one b.units)
    aligned p (inr q) = rw q (zero_times (10 ^ (max a.scale 0 - 0)))

both_scaled :
    (scale : ℕ) (a b : Decimal) (u : ℤ)
    → (a.scale ≡ scale) ⊎ (a ≡ dec 0)
    → (b.scale ≡ scale) ⊎ (b ≡ dec 0)
    → (a ≡ dec 0 → b ≡ dec 0 → u ≡ pos 0)
    → (max a.scale b.scale ≡ scale) ⊎ (record { units = u; scale = max a.scale b.scale } ≡ dec 0)
both_scaled scale a b u (inl p) (inl q) h = inl (rw (p, q) (omega arith))
both_scaled scale a b u (inl p) (inr q) h = inl (rw (p, q) (omega arith))
both_scaled scale a b u (inr p) (inl q) h = inl (rw (p, q) (omega arith))
both_scaled scale a b u (inr p) (inr q) h = inr (rw (p, q, h p q) refl)

zero_sums : (pos 0 +ℤ pos 0 ≡ pos 0) × (pos 0 -ℤ pos 0 ≡ pos 0)
unfolding ◌+ℤ◌ ◌-ℤ◌
zero_sums = (refl, refl)

-- A sum of fitting numbers is exact and fits, where it has at most 28 digits.
pub add_dec-exact :
    (scale m k : ℕ) (a b : Decimal)
    → Fits scale m a
    → Fits scale k b
    → m + k < 10 ^ 28
    → (Decimal.units (add_dec a b) ≡ a.units +ℤ b.units) × Fits scale (m + k) (add_dec a b)
unfolding add_dec
add_dec-exact scale m k a b fa fb h =
    let le : abs_ℤ (a.units +ℤ b.units) ≤ m + k =
      omega (arith, abs-add a.units b.units, fa.small, fb.small) in
    let e : rounded (left_units a b +ℤ right_units a b) ≡ a.units +ℤ b.units =
      rw (left_exact scale m k a b fa fb, right_exact scale m k a b fa fb)
        (rounded-small (a.units +ℤ b.units) (omega (arith, le, h))) in
    (
      e,
      record {
        small = rw e le;
        scaled = both_scaled scale a b _ fa.scaled fb.scaled (λ p q.
            e
            ∙ ap (λ (x : Decimal × Decimal). x.0.units +ℤ x.1.units) (λ i. (p i, q i))
            ∙ zero_sums.0);
      },
    )

pub sub_dec-exact :
    (scale m k : ℕ) (a b : Decimal)
    → Fits scale m a
    → Fits scale k b
    → m + k < 10 ^ 28
    → (Decimal.units (sub_dec a b) ≡ a.units -ℤ b.units) × Fits scale (m + k) (sub_dec a b)
unfolding sub_dec
sub_dec-exact scale m k a b fa fb h =
    let le : abs_ℤ (a.units -ℤ b.units) ≤ m + k =
      omega (arith, abs-sub a.units b.units, fa.small, fb.small) in
    let e : rounded (left_units a b -ℤ right_units a b) ≡ a.units -ℤ b.units =
      rw (left_exact scale m k a b fa fb, right_exact scale m k a b fa fb)
        (rounded-small (a.units -ℤ b.units) (omega (arith, le, h))) in
    (
      e,
      record {
        small = rw e le;
        scaled = both_scaled scale a b _ fa.scaled fb.scaled (λ p q.
            e
            ∙ ap (λ (x : Decimal × Decimal). x.0.units -ℤ x.1.units) (λ i. (p i, q i))
            ∙ zero_sums.1);
      },
    )

-- Fitting numbers of the same units are equal to the code.
pub eq_dec-exact :
    (scale m k : ℕ) (a b : Decimal)
    → Fits scale m a
    → Fits scale k b
    → a.units ≡ b.units
    → eq_dec a b ≡ true
unfolding eq_dec lt_dec
eq_dec-exact scale m k a b fa fb h = rw (
  left_exact scale m k a b fa fb,
  right_exact scale m k a b fa fb,
  left_exact scale k m b a fb fa,
  right_exact scale k m b a fb fa,
  h,
  le→ltb (pos_part b.units + neg_part b.units) (pos_part b.units + neg_part b.units) (omega arith),
)
