-- ===== src/Common/Decimal.antt =====
-- Decimal notation of an unsigned integer, as `Display` prints it. A `u64` has at most 20 digits.
use Prim.Native.Nat.{ℕ, zero, suc, ◌+◌, ◌*◌, ◌/◌, ◌%◌, ◌-◌, ◌^◌, ◌<◌}
use mathlib.Core.Path.{◌≡◌, sym, ap, ◌∙◌}
use mathlib.Core.Bool.{true}
use mathlib.Core.List.{[], ◌∷◌}
use native.Mathlib.Omega.{arith}
use sub_hub.Common.Tests.{ltb, if◌then◌else◌}
use sub_hub.Common.Lists.{All, length}
use sub_hub.Common.Strings.{Text, is_digit}

-- The digits in front of those that stand in `rest`.
digits_onto : ℕ → ℕ → Text → Text
digits_onto zero n rest = rest
digits_onto (suc f) n rest =
    let more = digits_onto f (n / 10) ((48 + n % 10) ∷ rest) in
    if ltb n 10 then (48 + n) ∷ rest else more

unfoldable pub decimal : ℕ → Text
unfolding digits_onto
decimal n = digits_onto 20 n []

-- The value of a text of digits, read from the left onto `acc`.
value_onto : ℕ → Text → ℕ
value_onto acc [] = acc
value_onto acc (c ∷ s) = value_onto (acc * 10 + (c - 48)) s

-- The largest number that the fuel suffices for, plus one.
ten_pow : ℕ → ℕ
ten_pow zero = 1
ten_pow (suc f) = ten_pow f * 10

value-digits_onto :
    (f n : ℕ) (rest : Text)
    → n < ten_pow f
    → 0 < f
    → value_onto 0 (digits_onto f n rest) ≡ value_onto n rest
unfolding digits_onto value_onto ten_pow
value-digits_onto zero n rest h p = absurd (omega arith)
value-digits_onto (suc zero) n rest h p = ground arith
value-digits_onto (suc (suc f)) n rest h p =
    ground (arith, value-digits_onto (suc f) (n / 10) ((48 + n % 10) ∷ rest))

-- Two numbers of 64 bits that print alike are equal.
pub decimal-injective : (m n : ℕ) → m < 2 ^ 64 → n < 2 ^ 64 → decimal m ≡ decimal n → m ≡ n
unfolding decimal value_onto ten_pow
decimal-injective m n hm hn e =
    sym (value-digits_onto 20 m [] (omega arith) (omega arith))
    ∙ ap (value_onto 0) e
    ∙ value-digits_onto 20 n [] (omega arith) (omega arith)

digits_onto-All :
    (f n : ℕ) (rest : Text)
    → All (λ c. is_digit c ≡ true) rest
    → All (λ c. is_digit c ≡ true) (digits_onto f n rest)
unfolding digits_onto is_digit
digits_onto-All zero n rest h = h
digits_onto-All (suc f) n rest h = ground (arith, digits_onto-All f (n / 10) ((48 + n % 10) ∷ rest))

pub decimal-All : (n : ℕ) → All (λ c. is_digit c ≡ true) (decimal n)
unfolding decimal
decimal-All n = digits_onto-All 20 n [] tt

-- The number that a text of digits denotes.
unfoldable pub value_of : Text → ℕ
unfolding value_onto
value_of = value_onto 0

pub value_of-decimal : (n : ℕ) → n < 2 ^ 64 → value_of (decimal n) ≡ n
unfolding value_of decimal value_onto ten_pow
value_of-decimal n h = value-digits_onto 20 n [] (omega arith) (omega arith)

digits_onto-some : (f n : ℕ) (rest : Text) → 0 < length rest → 0 < length (digits_onto f n rest)
unfolding digits_onto
digits_onto-some zero n rest h = h
digits_onto-some (suc f) n rest h =
    ground (arith, digits_onto-some f (n / 10) ((48 + n % 10) ∷ rest))

pub length-decimal : (n : ℕ) → 0 < length (decimal n)
unfolding decimal digits_onto
length-decimal n = ground (arith, digits_onto-some 19 (n / 10) ((48 + n % 10) ∷ []))
