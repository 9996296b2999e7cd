-- ===== src/Double.antt =====
-- What the code does with a `double`. The language's floating point type is a parameter: a type
-- with the operations that the sources use, and, where a theorem needs them, named facts of IEEE 754.
pub mod Units
pub mod Fractions
use tradingapp.Prelude.{ℕ, ◌+◌, ◌-◌, ◌/◌, ◌^◌, ◌<◌, ◌≡◌, ◌⊎◌, Bool, true, false}
use tradingapp.Prelude.Int.{ℤ, pos, negsuc}

pub record Double (F : Type 0) : Type 0 where
  -- The conversion of an integer.
  pub of_int : ℤ → F
  pub add : F → F → F
  pub sub : F → F → F
  pub mul : F → F → F
  pub div : F → F → F
  pub lt : F → F → Bool
  pub le : F → F → Bool
  pub eq : F → F → Bool
  pub fabs : F → F
  -- `(uint32_t) ceil(x)`, `uint32_t(x)` and `int32_t(x)`.
  pub ceil_u32 : F → ℕ
  pub trunc_u32 : F → ℕ
  pub trunc_i32 : F → ℤ
  pub trunc_i64 : F → ℤ

module _ {F : Type 0} ⦃d : Double F⦄ where
  abbrev pub zero_point : F
  zero_point = d.of_int (pos 0)

-- Comparison facts of IEEE 754. With gradual underflow a difference is positive exactly when its
-- first operand is the greater; `lt_split` holds of every number that is not a NaN.
pub record IsOrdered (F : Type 0) ⦃d : Double F⦄ : Type 0 where
  pub pos_long : (a b : F) → d.lt zero_point (d.mul (d.sub a b) (d.of_int (pos 1))) ≡ d.lt b a
  pub pos_short : (a b : F) → d.lt zero_point (d.mul (d.sub a b) (d.of_int (negsuc 0))) ≡ d.lt a b
  pub lt_asymm : (a b : F) → d.lt a b ≡ true → d.lt b a ≡ false
  pub lt_split : (a b c : F) → d.lt a c ≡ true → (d.lt a b ≡ true) ⊎ (d.lt b c ≡ true)

-- A quotient of two numbers below 2 ^ 32 is rounded to 53 bits, which moves it across no integer.
pub record HasExactCeil (F : Type 0) ⦃d : Double F⦄ : Type 0 where
  pub ceil_div :
      (a b : ℕ)
      → 0 < b
      → a < 2 ^ 32
      → b < 2 ^ 32
      → d.ceil_u32 (d.div (d.of_int (pos a)) (d.of_int (pos b))) ≡ (a + b - 1) / b
