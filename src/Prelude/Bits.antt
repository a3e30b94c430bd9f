-- ===== src/Prelude/Bits.antt =====
-- Bitwise or at variables: setting bits that are clear is an addition.
use Prim.Native.Nat.{
  ℕ, zero, suc, ◌+◌, ◌*◌, ◌/◌, ◌%◌, ◌^◌, ◌≤◌, ◌<◌, max, bit_or, digits, bit_or-bitwise,
}
use mathlib.Core.Path.{◌≡◌, refl, ap, ◌∙◌}
use native.Mathlib.Omega.{arith}
use native.Mathlib.Nat.{pow-suc}

abbrev or_digits : ℕ → ℕ → ℕ → ℕ
or_digits n a b = digits (λ b. b) max n a b

-- The count of digits to go does not matter once it is enough.
or_digits_enough : (n m a b : ℕ) → a ≤ n → a ≤ m → or_digits n a b ≡ or_digits m a b
or_digits_enough zero zero a b p q = refl
or_digits_enough zero (suc m) zero b p q = refl
or_digits_enough zero (suc m) (suc a) b p q = absurd (omega arith)
or_digits_enough (suc n) zero zero b p q = refl
or_digits_enough (suc n) zero (suc a) b p q = absurd (omega arith)
or_digits_enough (suc n) (suc m) zero b p q = refl
or_digits_enough (suc n) (suc m) (suc a) b p q =
    omega (arith, or_digits_enough n m (suc a / 2) (b / 2) (omega arith) (omega arith))

pub zero-bit_or : (b : ℕ) → bit_or 0 b ≡ b
zero-bit_or b = bit_or-bitwise 0 b

-- The law for the lowest digit.
pub bit_or_step : (a b : ℕ) → bit_or a b ≡ bit_or (a / 2) (b / 2) * 2 + max (a % 2) (b % 2)
bit_or_step zero b = omega (arith, zero-bit_or b, zero-bit_or (b / 2))
bit_or_step (suc a) b = omega (
  arith,
  bit_or-bitwise (suc a) b,
  bit_or-bitwise (suc a / 2) (b / 2),
  or_digits_enough a (suc a / 2) (suc a / 2) (b / 2) (omega arith) (omega arith),
)

bit_or_double : (a k : ℕ) → bit_or a (k * 2) ≡ bit_or (a / 2) k * 2 + a % 2
bit_or_double a k =
    let whole : k * 2 / 2 ≡ k = omega arith in rw whole at (bit_or_step a (k * 2)) ∙ omega arith

-- `a` fills the `s` lowest bits at most, and `k * 2 ^ s` leaves them clear.
pub bit_or_disjoint : (s a k : ℕ) → a < 2 ^ s → bit_or a (k * 2 ^ s) ≡ a + k * 2 ^ s
bit_or_disjoint zero zero k h = omega (arith, zero-bit_or (k * 1))
bit_or_disjoint zero (suc a) k h = absurd (omega arith)
bit_or_disjoint (suc s) a k h =
    let doubled : k * 2 ^ suc s ≡ k * 2 ^ s * 2 =
      omega (arith, ap (λ (t : ℕ). k * t) (pow-suc 2 s)) in
    rw (doubled, bit_or_double a (k * 2 ^ s))
      (omega (arith, pow-suc 2 s, bit_or_disjoint s (a / 2) k (omega (arith, pow-suc 2 s))))

bit_or-zero_enough : (n a : ℕ) → a ≤ n → bit_or a 0 ≡ a
bit_or-zero_enough n zero h = refl
bit_or-zero_enough zero (suc a) h = absurd (omega arith)
bit_or-zero_enough (suc n) (suc a) h =
    omega (arith, bit_or_step (suc a) 0, bit_or-zero_enough n (suc a / 2) (omega arith))

-- `x | 1`
pub bit_or-one : (a : ℕ) → bit_or a 1 ≡ a / 2 * 2 + 1
bit_or-one a = omega (arith, bit_or_step a 1, bit_or-zero_enough (a / 2) (a / 2) (omega arith))
