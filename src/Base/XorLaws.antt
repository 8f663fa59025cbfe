-- ===== src/Base/XorLaws.antt =====
-- `bit_xor` as an operation of a group, and its shifts.
use Prim.Native.Nat.{ℕ, zero, suc, ◌+◌, ◌*◌, ◌/◌, ◌%◌, ◌≤◌, ◌<◌, bit_xor, bit_xor-bitwise}
use mathlib.Core.Path.{◌≡◌, refl, sym, ap, ap₂, ◌∙◌}
use native.Mathlib.Omega.{arith}
use libkpnet.Base.Xor.{bit_xor_digit, digit_sum}

pub bit_xor-half : (a b : ℕ) → bit_xor a b / 2 ≡ bit_xor (a / 2) (b / 2)
bit_xor-half a b = omega (arith, bit_xor_digit a b, digit_sum a b)

pub bit_xor-low : (a b : ℕ) → bit_xor a b % 2 ≡ (a % 2 + b % 2) % 2
bit_xor-low a b = omega (arith, bit_xor_digit a b, digit_sum a b)

-- Numbers with the same last digit and the same half are the same.
halves : (a b : ℕ) → a / 2 ≡ b / 2 → a % 2 ≡ b % 2 → a ≡ b
halves a b h l = omega arith

xor_comm_below : (n a b : ℕ) → a ≤ n → b ≤ n → bit_xor a b ≡ bit_xor b a
xor_comm_below zero a b h i = ap₂ bit_xor {x = a} {y = b} (omega arith) (omega arith)
xor_comm_below (suc n) a b h i =
    halves (bit_xor a b) (bit_xor b a)
      (bit_xor-half a b
        ∙ xor_comm_below n (a / 2) (b / 2) (omega arith) (omega arith)
        ∙ sym (bit_xor-half b a))
      (omega (arith, bit_xor-low a b, bit_xor-low b a))

pub bit_xor_comm : (a b : ℕ) → bit_xor a b ≡ bit_xor b a
bit_xor_comm a b = xor_comm_below (a + b) a b (omega arith) (omega arith)

xor_assoc_below :
    (n a b c : ℕ) → a ≤ n → b ≤ n → c ≤ n → bit_xor (bit_xor a b) c ≡ bit_xor a (bit_xor b c)
xor_assoc_below zero a b c h i j =
    let (x, y, z) : (a ≡ 0) × (b ≡ 0) × (c ≡ 0) = (omega arith, omega arith, omega arith) in
    rw (x, y, z) refl
xor_assoc_below (suc n) a b c h i j =
    halves (bit_xor (bit_xor a b) c) (bit_xor a (bit_xor b c))
      (bit_xor-half (bit_xor a b) c
        ∙ ap (λ t. bit_xor t (c / 2)) (bit_xor-half a b)
        ∙ xor_assoc_below n (a / 2) (b / 2) (c / 2) (omega arith) (omega arith) (omega arith)
        ∙ ap (bit_xor (a / 2)) (sym (bit_xor-half b c))
        ∙ sym (bit_xor-half a (bit_xor b c)))
      (omega (
        arith,
        bit_xor-low (bit_xor a b) c,
        bit_xor-low a b,
        bit_xor-low a (bit_xor b c),
        bit_xor-low b c,
      ))

pub bit_xor_assoc : (a b c : ℕ) → bit_xor (bit_xor a b) c ≡ bit_xor a (bit_xor b c)
bit_xor_assoc a b c = xor_assoc_below (a + b + c) a b c (omega arith) (omega arith) (omega arith)

pub bit_xor_zero : (a : ℕ) → bit_xor a 0 ≡ a
bit_xor_zero a = bit_xor_comm a 0 ∙ omega (arith, bit_xor-bitwise 0 a)

-- `y` shifted by `k` digits.
abbrev pub shifted : (k y : ℕ) → ℕ
shifted zero y = y
shifted (suc k) y = 2 * shifted k y

shifted-le : (k y z : ℕ) → y ≤ z → shifted k y ≤ shifted k z
shifted-le zero y z h = h
shifted-le (suc k) y z h = omega (arith, shifted-le k y z h)

-- Digits that do not overlap are added.
pub bit_xor-shifted : (k y z : ℕ) → z < shifted k 1 → bit_xor (shifted k y) z ≡ shifted k y + z
bit_xor-shifted zero y z h =
    ap (bit_xor y) {x = z} {y = 0} (omega arith) ∙ bit_xor_zero y ∙ omega arith
bit_xor-shifted (suc k) y z h =
    halves (bit_xor (shifted (suc k) y) z) (shifted (suc k) y + z)
      (bit_xor-half (shifted (suc k) y) z
        ∙ ap (λ t. bit_xor t (z / 2)) {x = shifted (suc k) y / 2} {y = shifted k y} (omega arith)
        ∙ bit_xor-shifted k y (z / 2) (omega arith)
        ∙ omega arith)
      (omega (arith, bit_xor-low (shifted (suc k) y) z))

-- Digits stay below a bound that both numbers have.
pub bit_xor-below : (k a b : ℕ) → a < shifted k 1 → b < shifted k 1 → bit_xor a b < shifted k 1
bit_xor-below zero a b h i =
    let (x, y) : (a ≡ 0) × (b ≡ 0) = (omega arith, omega arith) in rw (x, y) (omega arith)
bit_xor-below (suc k) a b h i =
    omega (arith, bit_xor-half a b, bit_xor-below k (a / 2) (b / 2) (omega arith) (omega arith))
