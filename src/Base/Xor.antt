-- ===== src/Base/Xor.antt =====
-- `bit_xor` and `bit_or` one binary digit at a time, and the laws that follow.
use Prim.Native.Nat.{
  ℕ, zero, suc, ◌+◌, ◌*◌, ◌/◌, ◌%◌, ◌≤◌, ◌<◌, max, bit_or, bit_xor, differ, digits, bit_or-bitwise,
  bit_xor-bitwise,
}
use mathlib.Core.Path.{◌≡◌, refl}
use native.Mathlib.Omega.{arith}

module _ (f : ℕ → ℕ → ℕ) where
  fold-fuel : (n m a b : ℕ) → a ≤ n → a ≤ m → digits (λ c. c) f n a b ≡ digits (λ c. c) f m a b
  fold-fuel zero zero a b p q = refl
  fold-fuel zero (suc m) zero b p q = refl
  fold-fuel zero (suc m) (suc a) b p q = absurd (omega arith)
  fold-fuel (suc n) zero zero b p q = refl
  fold-fuel (suc n) zero (suc a) b p q = absurd (omega arith)
  fold-fuel (suc n) (suc m) zero b p q = refl
  fold-fuel (suc n) (suc m) (suc a) b p q =
      omega (arith, fold-fuel n m (suc a / 2) (b / 2) (omega arith) (omega arith))

pub bit_xor_digit : (a b : ℕ) → bit_xor a b ≡ bit_xor (a / 2) (b / 2) * 2 + differ (a % 2) (b % 2)
bit_xor_digit zero b = omega (arith, bit_xor-bitwise 0 b, bit_xor-bitwise 0 (b / 2))
bit_xor_digit (suc a) b = omega (
  arith,
  bit_xor-bitwise (suc a) b,
  bit_xor-bitwise (suc a / 2) (b / 2),
  fold-fuel differ a (suc a / 2) (suc a / 2) (b / 2) (omega arith) (omega arith),
)

pub bit_or_digit : (a b : ℕ) → bit_or a b ≡ bit_or (a / 2) (b / 2) * 2 + max (a % 2) (b % 2)
bit_or_digit zero b = omega (arith, bit_or-bitwise 0 b, bit_or-bitwise 0 (b / 2))
bit_or_digit (suc a) b = omega (
  arith,
  bit_or-bitwise (suc a) b,
  bit_or-bitwise (suc a / 2) (b / 2),
  fold-fuel max a (suc a / 2) (suc a / 2) (b / 2) (omega arith) (omega arith),
)

differ-sum : (d e : ℕ) → d < 2 → e < 2 → differ d e ≡ (d + e) % 2
differ-sum zero zero h i = refl
differ-sum zero (suc zero) h i = refl
differ-sum (suc zero) zero h i = refl
differ-sum (suc zero) (suc zero) h i = refl
differ-sum (suc (suc d)) e h i = absurd (omega arith)
differ-sum d (suc (suc e)) h i = absurd (omega arith)

pub digit_sum : (a b : ℕ) → differ (a % 2) (b % 2) ≡ (a % 2 + b % 2) % 2
digit_sum a b = differ-sum (a % 2) (b % 2) (omega arith) (omega arith)

pub bit_xor_self : (n a : ℕ) → a ≤ n → bit_xor a a ≡ 0
bit_xor_self n zero h = omega (arith, bit_xor-bitwise 0 0)
bit_xor_self zero (suc a) h = absurd (omega arith)
bit_xor_self (suc n) (suc a) h = omega (
  arith,
  digit_sum (suc a) (suc a),
  bit_xor_digit (suc a) (suc a),
  bit_xor_self n (suc a / 2) (omega arith),
)

-- Only equal numbers have no differing digit.
pub bit_xor-zero : (n a b : ℕ) → a ≤ n → b ≤ n → bit_xor a b ≡ 0 → a ≡ b
bit_xor-zero zero a b h i e = omega arith
bit_xor-zero (suc n) a b h i e = omega (
  arith,
  e,
  bit_xor_digit a b,
  digit_sum a b,
  bit_xor-zero n (a / 2) (b / 2) (omega arith) (omega arith) (omega (arith, e, bit_xor_digit a b)),
)

pub bit_or-zero : (n a b : ℕ) → a ≤ n → b ≤ n → bit_or a b ≡ 0 → (a ≡ 0) × (b ≡ 0)
bit_or-zero zero a b h i e = (omega arith, omega arith)
bit_or-zero (suc n) a b h i e =
    let (x, y) =
      bit_or-zero n (a / 2) (b / 2) (omega arith) (omega arith)
        (omega (arith, e, bit_or_digit a b)) in
    (omega (arith, e, bit_or_digit a b, x), omega (arith, e, bit_or_digit a b, y))

pub bit_or-zeros : bit_or 0 0 ≡ 0
bit_or-zeros = omega (arith, bit_or-bitwise 0 0)
