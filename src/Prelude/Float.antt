-- ===== src/Prelude/Float.antt =====
-- Go's `float64` values as IEEE 754 bit patterns, with the comparisons of the language.
-- A comparison with a NaN is false, and the two zeros are equal. Arithmetic is not defined here:
-- the parts that multiply or add take the operations as a parameter.
use Prim.Native.Nat.{ℕ, ◌%◌, ◌/◌, ◌^◌, ◌-◌}
use mathlib.Core.Bool.{Bool, false, not, ◌&&◌, ◌||◌}
use mathlib.Core.Path.{◌≡◌, refl}
use native.Mathlib.Omega.{arith}
use magi_system.Prelude.Tests.{ltb, ◌==◌, if◌then◌else◌}
use magi_system.Prelude.Int.{ℤ, pos, negsuc, ltb_ℤ}

pub record Float64 : Type 0 where
  pub bits : ℕ

magnitude : Float64 → ℕ
magnitude f = f.bits % 2 ^ 63

is_negative : Float64 → Bool
is_negative f = f.bits / 2 ^ 63 == 1

-- All exponent bits are set, and some fraction bit.
unfoldable pub is_nan : Float64 → Bool
unfolding magnitude
is_nan f = ltb 0x7ff0000000000000 (magnitude f)

-- The values that are no NaN are ordered as these integers.
order_key : Float64 → ℤ
unfolding magnitude is_negative
order_key f = let m = magnitude f in if is_negative f && ltb 0 m then negsuc (m - 1) else pos m

unfoldable pub lt_float : Float64 → Float64 → Bool
unfolding is_nan order_key
lt_float a b = not (is_nan a) && (not (is_nan b) && ltb_ℤ (order_key a) (order_key b))

abbrev pub float_zero : Float64
float_zero = record { bits = 0 }

abbrev pub float_one : Float64
float_one = record { bits = 0x3ff0000000000000 }

abbrev pub float_hundred : Float64
float_hundred = record { bits = 0x4059000000000000 }

-- The arithmetic of the hardware that the program uses, as a parameter.
pub record FloatOps : Type 0 where
  pub add : Float64 → Float64 → Float64
  pub mul : Float64 → Float64 → Float64
  pub div : Float64 → Float64 → Float64
  pub of_int : ℕ → Float64

-- `x == y` of the language: the same place in the order, and no NaN.
unfoldable pub eq_float : Float64 → Float64 → Bool
unfolding is_nan order_key
eq_float a b =
    not (is_nan a)
    && (not (is_nan b)
        && (not (ltb_ℤ (order_key a) (order_key b)) && not (ltb_ℤ (order_key b) (order_key a))))

-- `x >= y` of the language.
unfoldable pub ge_float : Float64 → Float64 → Bool
unfolding lt_float eq_float
ge_float a b = lt_float b a || eq_float a b

-- `if x > hi { x = hi }; if x < lo { x = lo }` at the bounds 0 and 1.
unfoldable pub clamp_unit : Float64 → Float64
clamp_unit x =
    let capped = if lt_float float_one x then float_one else x in
    if lt_float capped float_zero then float_zero else capped

-- The order of the bounds themselves.
pub bounds_order :
    (lt_float float_one float_zero ≡ false)
    × (lt_float float_zero float_zero ≡ false)
    × (lt_float float_one float_one ≡ false)
    × (lt_float float_hundred float_zero ≡ false)
    × (lt_float float_hundred float_hundred ≡ false)
    × (lt_float float_hundred float_one ≡ false)
unfolding lt_float
bounds_order = (refl, refl, refl, refl, refl, refl)

-- A clamped value is neither below 0 nor above 1.
pub clamp_unit_bounds :
    (x : Float64)
    → (lt_float (clamp_unit x) float_zero ≡ false) × (lt_float float_one (clamp_unit x) ≡ false)
unfolding clamp_unit
clamp_unit_bounds x = ground (arith, bounds_order)
