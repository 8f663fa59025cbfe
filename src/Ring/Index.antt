-- ===== src/Ring/Index.antt =====
-- Positions of a ring and the cells that they fall on: positions count on without bound, the
-- words of the code hold them modulo 2 ^ 64, and a cell is a position modulo the size 2 ^ k.
use Prim.Native.Nat.{◌∣◌}
use libkpnet.Base.{
  ℕ, zero, suc, ◌+◌, ◌-◌, ◌%◌, ◌^◌, ◌≤◌, ◌<◌, bit_and, ◌≡◌, ◌≢◌, ◌∙◌, arith, u64, bit_and_mask,
  pow-suc, dec_lt,
}
use native.Mathlib.Nat.{mod-mod_of_dvd, dvd-mul_right_of_dvd, dvd_refl}

two-pow-dvd : (k n : ℕ) → k ≤ n → 2 ^ k ∣ 2 ^ n
two-pow-dvd zero zero h = dvd_refl 1
two-pow-dvd (suc k) zero h = elim h [ ]
two-pow-dvd k (suc n) h = elim (dec_lt n k) [
  | yes p ↦ let e : k ≡ suc n = omega arith in rw e (dvd_refl (2 ^ suc n))
  | no p ↦ rw pow-suc (dvd-mul_right_of_dvd (2 ^ k) (two-pow-dvd k n (omega arith)) 2)
]

-- The cell of a position is read off its word.
pub word-bit_and : (k x : ℕ) → k ≤ 64 → bit_and (u64 x) (2 ^ k - 1) ≡ x % 2 ^ k
word-bit_and k x h = bit_and_mask k (x % 2 ^ 64) ∙ mod-mod_of_dvd (2 ^ k) x (two-pow-dvd k 64 h)

-- Positions less than a whole round apart fall on different cells.
pub mod_shift_ne : (m t i j : ℕ) → i < j → j < i + m → (t + i) % m ≢ (t + j) % m
mod_shift_ne m t i j p q e = grind arith

-- A whole round comes back to the same cell.
pub mod-add_self : (m t : ℕ) → (t + m) % m ≡ t % m
mod-add_self m t = grind arith
