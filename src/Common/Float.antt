-- ===== src/Common/Float.antt =====
-- `f64` as its 64-bit pattern (IEEE 754 binary64). Classification and comparison are computed from
-- the pattern. Rounded arithmetic is an interface, `Arithmetic`, that its users take as a parameter.
use Prim.Native.Nat.{ℕ, ◌+◌, ◌-◌, ◌%◌, ◌^◌, compare, Ordering}
use mathlib.Core.Path.{◌≡◌}
use mathlib.Core.Bool.{Bool, true, false, not, ◌&&◌, ◌||◌}
use mathlib.Core.Option.{Option, none, some}
use native.Mathlib.Omega.{arith}
use sub_hub.Common.Tests.{ltb, leb, if◌then◌else◌}

pub record F64 : Type 0 where
  pub bits : ℕ

-- The pattern without its sign bit.
unfoldable pub magnitude : F64 → ℕ
magnitude x = x.bits % 2 ^ 63

unfoldable pub is_negative : F64 → Bool
is_negative x = leb (2 ^ 63) x.bits

abbrev pub infinity_magnitude : ℕ
infinity_magnitude = 0x7FF0000000000000

unfoldable pub is_nan : F64 → Bool
unfolding magnitude
is_nan x = ltb infinity_magnitude (magnitude x)

-- `f64::is_finite`.
unfoldable pub is_finite : F64 → Bool
unfolding magnitude
is_finite x = ltb (magnitude x) infinity_magnitude

-- Patterns that are numbers are ordered as these keys are; both zeros have the key `2 ^ 63`.
unfoldable pub order_key : F64 → ℕ
unfolding magnitude is_negative
order_key x = if is_negative x then 2 ^ 63 - magnitude x else 2 ^ 63 + magnitude x

-- `f64::partial_cmp`.
unfoldable pub partial_cmp : F64 → F64 → Option Ordering
partial_cmp x y = if is_nan x || is_nan y then none else some (compare (order_key x) (order_key y))

-- `a >= b` on floats: false if either is a NaN.
unfoldable pub float_ge : F64 → F64 → Bool
float_ge x y = not (is_nan x || is_nan y) && leb (order_key y) (order_key x)

abbrev pub float_zero : F64
float_zero = record { bits = 0 }

-- 0x7FF8000000000000 is the quiet NaN that `f64::NAN` is.
abbrev pub float_nan : F64
float_nan = record { bits = 0x7FF8000000000000 }

-- A finite value is not a NaN.
pub finite-not_nan : (x : F64) → is_finite x ≡ true → is_nan x ≡ false
unfolding is_finite is_nan
finite-not_nan x h = ground arith

-- `a < b` on floats: false if either is a NaN.
unfoldable pub float_lt : F64 → F64 → Bool
float_lt x y = not (is_nan x || is_nan y) && ltb (order_key x) (order_key y)
