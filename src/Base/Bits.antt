-- ===== src/Base/Bits.antt =====
-- `x & 63`. The library defines `bit_and` by a recursion on the binary digits with fuel; here is its
-- law for the lowest digit, and what a mask of six ones keeps.
use Prim.Native.Nat.{ℕ, zero, suc, ◌+◌, ◌*◌, ◌/◌, ◌%◌, ◌≤◌, min, bit_and, digits, bit_and-bitwise}
use mathlib.Core.Path.{◌≡◌, refl}
use native.Mathlib.Omega.{arith}

abbrev and_digits : ℕ → ℕ → ℕ → ℕ
and_digits fuel a b = digits (λ c. zero) min fuel a b

-- any fuel that reaches the first number is as good as another
and_digits_enough : (f g a b : ℕ) → a ≤ f → a ≤ g → and_digits f a b ≡ and_digits g a b
and_digits_enough zero zero a b p q = refl
and_digits_enough zero (suc g) zero b p q = refl
and_digits_enough zero (suc g) (suc a) b p q = absurd (omega arith)
and_digits_enough (suc f) zero zero b p q = refl
and_digits_enough (suc f) zero (suc a) b p q = absurd (omega arith)
and_digits_enough (suc f) (suc g) zero b p q = refl
and_digits_enough (suc f) (suc g) (suc a) b p q =
    omega (arith, and_digits_enough f g (suc a / 2) (b / 2) (omega arith) (omega arith))

bit_and-zero_left : (b : ℕ) → bit_and 0 b ≡ 0
bit_and-zero_left b = bit_and-bitwise 0 b

-- the lowest digit, and the rest
bit_and_digit : (a b : ℕ) → bit_and a b ≡ bit_and (a / 2) (b / 2) * 2 + min (a % 2) (b % 2)
bit_and_digit zero b = omega (arith, bit_and-zero_left b, bit_and-zero_left (b / 2))
bit_and_digit (suc a) b = omega (
  arith,
  bit_and-bitwise (suc a) b,
  bit_and-bitwise (suc a / 2) (b / 2),
  and_digits_enough a (suc a / 2) (suc a / 2) (b / 2) (omega arith) (omega arith),
)

bit_and-zero_right : (fuel a : ℕ) → a ≤ fuel → bit_and a 0 ≡ 0
bit_and-zero_right fuel zero h = refl
bit_and-zero_right zero (suc a) h = absurd (omega arith)
bit_and-zero_right (suc fuel) (suc a) h =
    omega (arith, bit_and_digit (suc a) 0, bit_and-zero_right fuel (suc a / 2) (omega arith))

pub bit_and-63 : (x : ℕ) → bit_and x 63 ≡ x % 64
bit_and-63 x = omega (
  arith,
  bit_and_digit x 63,
  bit_and_digit (x / 2) 31,
  bit_and_digit (x / 2 / 2) 15,
  bit_and_digit (x / 2 / 2 / 2) 7,
  bit_and_digit (x / 2 / 2 / 2 / 2) 3,
  bit_and_digit (x / 2 / 2 / 2 / 2 / 2) 1,
  bit_and-zero_right (x / 2 / 2 / 2 / 2 / 2 / 2) (x / 2 / 2 / 2 / 2 / 2 / 2) (omega arith),
)
