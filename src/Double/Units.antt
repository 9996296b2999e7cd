-- ===== src/Double/Units.antt =====
-- Whole price units as the numbers: the comparison facts can be met. A quotient is rounded to zero.
use tradingapp.Prelude.{suc, ◌≡◌, arith, if◌then◌else◌}
use tradingapp.Prelude.Int.{ℤ, pos, negsuc, ◌+ℤ◌, ◌-ℤ◌, ◌*ℤ◌, quot, ltb_ℤ, leb_ℤ, eqb_ℤ, to_u32}
use tradingapp.Double.{Double, IsOrdered}

unfoldable pub div_ℤ : ℤ → ℤ → ℤ
unfolding quot ◌-ℤ◌
div_ℤ a (pos d) = quot a d
div_ℤ a (negsuc d) = quot (pos 0 -ℤ a) (suc d)

instance abbrev pub int_double : Double ℤ
int_double = record {
  of_int = λ n. n;
  add = ◌+ℤ◌;
  sub = ◌-ℤ◌;
  mul = ◌*ℤ◌;
  div = div_ℤ;
  lt = ltb_ℤ;
  le = leb_ℤ;
  eq = eqb_ℤ;
  fabs = λ a. if ltb_ℤ a (pos 0) then pos 0 -ℤ a else a;
  ceil_u32 = to_u32;
  trunc_u32 = to_u32;
  trunc_i32 = λ a. a;
  trunc_i64 = λ a. a;
}

pos_long : (a b : ℤ) → ltb_ℤ (pos 0) ((a -ℤ b) *ℤ pos 1) ≡ ltb_ℤ b a
unfolding ◌-ℤ◌ ◌*ℤ◌
pos_long a b = ground arith

pos_short : (a b : ℤ) → ltb_ℤ (pos 0) ((a -ℤ b) *ℤ negsuc 0) ≡ ltb_ℤ a b
unfolding ◌-ℤ◌ ◌*ℤ◌
pos_short a b = ground arith

pub int_double-IsOrdered : IsOrdered ℤ
int_double-IsOrdered = record {
  pos_long = pos_long;
  pos_short = pos_short;
  lt_asymm = λ a b. ground arith;
  lt_split = λ a b c. ground arith;
}
