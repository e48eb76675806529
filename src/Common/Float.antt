-- ===== src/Common/Float.antt =====
-- Go's `float64`: the operations that the code uses, as an interface, and the laws of IEEE 754
-- that its values have as long as none of them is NaN. Rounding is monotone, so the laws of
-- monotonicity hold of the rounded operations too.
use Prim.Native.Nat.{ℕ, zero, suc, ◌≤◌, ◌+◌, ◌-◌, ◌*◌, ◌/◌, ◌%◌, ◌^◌}
use mathlib.Core.Path.{◌≡◌}
use mathlib.Core.Logic.{◌⊎◌}
use mathlib.Core.Bool.{Bool, true, not}
use native.Mathlib.Omega.{arith}
use native.Mathlib.Nat.{le_trans, le-div_iff_mul-le, div-mul-le_self, mul-le-mul_right}
use nyxora.Common.Tests.{ltb, leb, if◌then◌else◌}

pub record Float64 (F : Type 0) : Type 0 where
  pub lt : F → F → Bool
  pub le : F → F → Bool
  -- The constant n / d.
  pub ratio : ℕ → ℕ → F
  -- `float64(n)`, for an `int` that is not negative.
  pub of_int : ℕ → F
  pub add : F → F → F
  pub sub : F → F → F
  pub mul : F → F → F
  pub div : F → F → F
  -- The integer nearest to x, as a bit pattern.
  pub round_int : F → ℕ

module _ {F : Type 0} ⦃fl : Float64 F⦄ where
  infix 4 ◌≼◌
  abbrev pub ◌≼◌ : F → F → Type 0
  x ≼ y = fl.le x y ≡ true

  abbrev pub float_zero : F
  float_zero = fl.of_int 0

  -- `int(math.Round(x))`: some bit pattern of 64 bits.
  abbrev pub rounded : F → ℕ
  rounded x = fl.round_int x % 2 ^ 64

  -- `math.Max` and `math.Min`, away from NaN.
  abbrev pub fmax : F → F → F
  fmax x y = if fl.lt x y then y else x

  abbrev pub fmin : F → F → F
  fmin x y = if fl.lt y x then y else x

-- The order of the values that are not NaN.
pub record IsOrdered (F : Type 0) ⦃fl : Float64 F⦄ : Type 0 where
  pub lt_not_le : (x y : F) → fl.lt x y ≡ not (fl.le y x)
  pub le_trans : (x y z : F) → x ≼ y → y ≼ z → x ≼ z
  pub le_total : (x y : F) → (x ≼ y) ⊎ (y ≼ x)

-- Correctly rounded arithmetic is monotone, away from NaN; the laws speak of the order and not of
-- equality, since the order does not tell 0 from -0.
pub record IsMonotone (F : Type 0) ⦃fl : Float64 F⦄ : Type 0 where
  pub add_mono : (a b c d : F) → a ≼ b → c ≼ d → fl.add a c ≼ fl.add b d
  pub sub_mono : (a b c d : F) → a ≼ b → d ≼ c → fl.sub a c ≼ fl.sub b d
  pub mul_mono : (a b c : F) → float_zero ≼ c → a ≼ b → fl.mul a c ≼ fl.mul b c
  pub div_mono : (a b c : F) → float_zero ≼ c → a ≼ b → fl.div a c ≼ fl.div b c
  pub add_zero : (a : F) → a ≼ fl.add a float_zero
  pub sub_zero : (a : F) → fl.sub a float_zero ≼ a
  pub zero_mul : (a : F) → float_zero ≼ fl.mul float_zero a
  pub sub_self : (a : F) → float_zero ≼ fl.sub a a
  pub int_positive : (n : ℕ) → float_zero ≼ fl.of_int n

-- The laws can be met: natural numbers, with subtraction and division rounded.
instance abbrev pub nat_float : Float64 ℕ
nat_float = record {
  lt = ltb;
  le = leb;
  ratio = λ n d. n / d;
  of_int = λ n. n;
  add = λ a b. a + b;
  sub = λ a b. a - b;
  mul = λ a b. a * b;
  div = λ a b. a / b;
  round_int = λ a. a;
}

div_mono_nat : (a b c : ℕ) → a ≤ b → a / c ≤ b / c
div_mono_nat a b zero h = omega arith
div_mono_nat a b (suc c) h =
    (le-div_iff_mul-le (omega arith)).1 (le_trans (div-mul-le_self a (suc c)) h)

mul_mono_nat : (a b c : ℕ) → a ≤ b → a * c ≤ b * c
mul_mono_nat a b c h = mul-le-mul_right c h

pub nat-IsOrdered : IsOrdered ℕ
nat-IsOrdered = ground arith

pub nat-IsMonotone : IsMonotone ℕ
nat-IsMonotone = record {
  add_mono = λ a b c d. ground arith;
  sub_mono = λ a b c d. ground arith;
  mul_mono = λ a b c. ground (arith, mul_mono_nat a b c);
  div_mono = λ a b c. ground (arith, div_mono_nat a b c);
  add_zero = λ a. ground arith;
  zero_mul = λ a. ground arith;
  sub_zero = λ a. ground arith;
  sub_self = λ a. ground arith;
  int_positive = λ n. ground arith;
}
