-- ===== src/Prelude/Bits.antt =====
-- Exclusive or at variables, from its recursion on binary digits.
use Prim.Native.Nat.{
  ℕ, zero, suc, ◌+◌, ◌*◌, ◌/◌, ◌%◌, ◌^◌, ◌≤◌, ◌<◌, bit_xor, digits, differ, bit_xor-bitwise,
}
use mathlib.Core.Path.{◌≡◌, refl, ap, ◌∙◌}
use native.Mathlib.Nat.{pow-suc}
use native.Mathlib.Omega.{arith}

abbrev xor_digits : ℕ → ℕ → ℕ → ℕ
xor_digits n a b = digits (λ c. c) differ n a b

-- More fuel than the first number needs changes nothing.
xor_digits-fuel : (n m a b : ℕ) → a ≤ n → a ≤ m → xor_digits n a b ≡ xor_digits m a b
xor_digits-fuel zero zero a b p q = refl
xor_digits-fuel (suc n) zero zero b p q = refl
xor_digits-fuel zero (suc m) zero b p q = refl
xor_digits-fuel zero (suc m) (suc a) b p q = absurd (omega arith)
xor_digits-fuel (suc n) zero (suc a) b p q = absurd (omega arith)
xor_digits-fuel (suc n) (suc m) zero b p q = refl
xor_digits-fuel (suc n) (suc m) (suc a) b p q =
    ap (λ t. t * 2 + differ (suc a % 2) (b % 2))
      (xor_digits-fuel n m (suc a / 2) (b / 2) (omega arith) (omega arith))

zero-bit_xor : (b : ℕ) → bit_xor 0 b ≡ b
zero-bit_xor b = bit_xor-bitwise 0 b

differ_cases : (x y : ℕ) → x < 2 → y < 2 → differ x y ≡ (x + y) % 2
differ_cases zero zero h k = refl
differ_cases zero (suc zero) h k = refl
differ_cases zero (suc (suc y)) h k = absurd (omega arith)
differ_cases (suc zero) zero h k = refl
differ_cases (suc zero) (suc zero) h k = refl
differ_cases (suc zero) (suc (suc y)) h k = absurd (omega arith)
differ_cases (suc (suc x)) y h k = absurd (omega arith)

pub bit_xor_step : (a b : ℕ) → bit_xor a b ≡ bit_xor (a / 2) (b / 2) * 2 + (a % 2 + b % 2) % 2
bit_xor_step zero b = omega (arith, zero-bit_xor b, zero-bit_xor (b / 2))
bit_xor_step (suc a) b = omega (
  arith,
  bit_xor-bitwise (suc a) b,
  bit_xor-bitwise (suc a / 2) (b / 2),
  xor_digits-fuel a (suc a / 2) (suc a / 2) (b / 2) (omega arith) (omega arith),
  differ_cases (suc a % 2) (b % 2) (omega arith) (omega arith),
)

zero_xor : (a b : ℕ) → a ≡ 0 → bit_xor a b ≡ b
zero_xor a b e = ap (λ t. bit_xor t b) e ∙ zero-bit_xor b

-- The result fits the width of the operands.
pub bit_xor-lt : (k a b : ℕ) → a < 2 ^ k → b < 2 ^ k → bit_xor a b < 2 ^ k
bit_xor-lt zero a b h h' = omega (arith, zero_xor a b (omega arith))
bit_xor-lt (suc k) a b h h' = omega (
  arith,
  bit_xor_step a b,
  pow-suc 2 k,
  bit_xor-lt k (a / 2) (b / 2) (omega (arith, pow-suc 2 k)) (omega (arith, pow-suc 2 k)),
)

-- One operand is got back from the result and the other.
pub bit_xor_cancel : (k a b c : ℕ) → a < 2 ^ k → c < 2 ^ k → bit_xor a b ≡ bit_xor c b → a ≡ c
bit_xor_cancel zero a b c h h' e = omega arith
bit_xor_cancel (suc k) a b c h h' e = omega (
  arith,
  bit_xor_step a b,
  bit_xor_step c b,
  bit_xor_cancel k (a / 2) (b / 2) (c / 2) (omega (arith, pow-suc 2 k)) (omega (arith, pow-suc 2 k))
      (omega (arith, e, bit_xor_step a b, bit_xor_step c b)),
)

pub bit_xor_comm : (k a b : ℕ) → a < 2 ^ k → b < 2 ^ k → bit_xor a b ≡ bit_xor b a
bit_xor_comm zero a b h h' = omega (arith, zero_xor a b (omega arith), zero_xor b a (omega arith))
bit_xor_comm (suc k) a b h h' = omega (
  arith,
  bit_xor_step a b,
  bit_xor_step b a,
  bit_xor_comm k (a / 2) (b / 2) (omega (arith, pow-suc 2 k)) (omega (arith, pow-suc 2 k)),
)

-- A digit above both operands stays.
pub bit_xor_high : (k a b : ℕ) → a < 2 ^ k → b < 2 ^ k → bit_xor (2 ^ k + a) b ≡ 2 ^ k + bit_xor a b
bit_xor_high zero a b h h' = omega (
  arith,
  bit_xor_step (1 + a) b,
  zero_xor ((1 + a) / 2) (b / 2) (omega arith),
  zero_xor a b (omega arith),
)
bit_xor_high (suc k) a b h h' = omega (
  arith,
  bit_xor_step (2 ^ suc k + a) b,
  bit_xor_step a b,
  pow-suc 2 k,
  ap (λ t. bit_xor t (b / 2)) (halves (pow-suc 2 k)),
  bit_xor_high k (a / 2) (b / 2) (omega (arith, pow-suc 2 k)) (omega (arith, pow-suc 2 k)),
)
  where
    halves : 2 ^ suc k ≡ 2 ^ k * 2 → (2 ^ suc k + a) / 2 ≡ 2 ^ k + a / 2
    halves e = omega (arith, e)
