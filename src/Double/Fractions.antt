-- ===== src/Double/Fractions.antt =====
-- Fractions that are not reduced as the numbers: the fact on rounding up can be met.
use tradingapp.Prelude.{ℕ, ◌+◌, ◌-◌, ◌*◌, ◌/◌, ◌≡◌, arith, if◌then◌else◌}
use tradingapp.Prelude.Int.{ℤ, pos, negsuc, ◌+ℤ◌, ◌-ℤ◌, ◌*ℤ◌, quot, ltb_ℤ, leb_ℤ, eqb_ℤ, to_u32}
use tradingapp.Double.{Double, HasExactCeil}

pub record Fraction : Type 0 where
  pub num : ℤ
  pub den : ℕ

abbrev pub frac : ℤ → ℕ → Fraction
frac n d = record { num = n; den = d }

-- A negative divisor changes the sign of the numerator.
abbrev pub divided : ℤ → ℕ → ℤ → ℕ → Fraction
divided n d (pos m) e = frac (n *ℤ pos e) (d * m)
divided n d (negsuc m) e = frac (n *ℤ (pos 0 -ℤ pos e)) (d * (m + 1))

abbrev pub ceiling : ℤ → ℕ → ℕ
ceiling (pos n) d = (n + d - 1) / d
ceiling (negsuc n) d = 0

instance abbrev pub fraction_double : Double Fraction
fraction_double = record {
  of_int = λ n. frac n 1;
  add = λ a b. frac (a.num *ℤ pos b.den +ℤ b.num *ℤ pos a.den) (a.den * b.den);
  sub = λ a b. frac (a.num *ℤ pos b.den -ℤ b.num *ℤ pos a.den) (a.den * b.den);
  mul = λ a b. frac (a.num *ℤ b.num) (a.den * b.den);
  div = λ a b. divided a.num a.den b.num b.den;
  lt = λ a b. ltb_ℤ (a.num *ℤ pos b.den) (b.num *ℤ pos a.den);
  le = λ a b. leb_ℤ (a.num *ℤ pos b.den) (b.num *ℤ pos a.den);
  eq = λ a b. eqb_ℤ (a.num *ℤ pos b.den) (b.num *ℤ pos a.den);
  fabs = λ a. if ltb_ℤ a.num (pos 0) then frac (pos 0 -ℤ a.num) a.den else a;
  ceil_u32 = λ a. ceiling a.num a.den;
  trunc_u32 = λ a. to_u32 (quot a.num a.den);
  trunc_i32 = λ a. quot a.num a.den;
  trunc_i64 = λ a. quot a.num a.den;
}

one_right : (a : ℕ) → pos a *ℤ pos 1 ≡ pos a
unfolding ◌*ℤ◌
one_right a = ground arith

ceil_div : (a b : ℕ) → ceiling (pos a *ℤ pos 1) (1 * b) ≡ (a + b - 1) / b
ceil_div a b = let e : 1 * b ≡ b = omega arith in rw (one_right, e)

pub fraction_double-HasExactCeil : HasExactCeil Fraction
fraction_double-HasExactCeil = record { ceil_div = λ a b h p q. ceil_div a b }
