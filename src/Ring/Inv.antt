-- ===== src/Ring/Inv.antt =====
-- The invariant of a ring of 2 ^ k cells. `t` counts the packets popped so far and `n` those in
-- the ring, both without bound; the words of the code are their remainders by 2 ^ 64.
use libkpnet.Base.{
  ℕ, zero, suc, ◌+◌, ◌-◌, ◌%◌, ◌^◌, ◌≤◌, ◌<◌, bit_and, ◌≡◌, refl, arith, true, some, List, [], ◌∷◌,
  length, get_or, u64, sub_u64, ap, subst, ◌∙◌,
}
use libkpnet.Ring.{Cell, Ringbuf, no_cell, cell_at, create_ringbuf, init_cells}
use libkpnet.Ring.Index.{word-bit_and}
use mathlib.Core.Option.{some-injective}
use native.Mathlib.Nat.{pow-le-pow_right, mod-eq_of_lt}

pub record IsRing (k t n : ℕ) (rb : Ringbuf) : Type 0 where
  pub wide : 1 ≤ k
  pub narrow : k ≤ 63
  pub size_eq : rb.size ≡ 2 ^ k
  pub mask_eq : rb.mask ≡ 2 ^ k - 1
  pub cells_eq : length rb.cells ≡ 2 ^ k
  pub head_eq : rb.head ≡ u64 (t + n)
  pub tail_eq : rb.tail ≡ u64 t
  pub fits : n ≤ 2 ^ k
  pub filled : (j : ℕ) → j < n → (cell_at rb ((t + j) % 2 ^ k)).seq ≡ u64 (t + j + 1)
  pub vacant : (j : ℕ) → n ≤ j → j < 2 ^ k → (cell_at rb ((t + j) % 2 ^ k)).seq ≡ u64 (t + j)

-- The packet at a position, with its length.
abbrev pub packet_at : Ringbuf → ℕ → ℕ × ℕ
packet_at rb i = ((cell_at rb i).packet, (cell_at rb i).plen)

-- What `n` cells hold from position `t + i` on.
abbrev pub window : Ringbuf → (k t i n : ℕ) → List (ℕ × ℕ)
window rb k t i zero = []
window rb k t i (suc n) = packet_at rb ((t + i) % 2 ^ k) ∷ window rb k t (suc i) n

pub two-le-pow : (k : ℕ) → 1 ≤ k → 2 ≤ 2 ^ k
two-le-pow k h = pow-le-pow_right {n = 2} (omega arith) h

pub pow-le-half : (k : ℕ) → k ≤ 63 → 2 ^ k ≤ 2 ^ 63
pow-le-half k h = pow-le-pow_right {n = 2} (omega arith) h

module _ {k t n : ℕ} {rb : Ringbuf} (v : IsRing k t n rb) where
  -- The cells that `push_ringbuf` and `pop_ringbuf` look at.
  pub head_cell : bit_and rb.head rb.mask ≡ (t + n) % 2 ^ k
  head_cell = rw (v.head_eq, v.mask_eq) (word-bit_and k (t + n) (omega (arith, v.narrow)))

  pub tail_cell : bit_and rb.tail rb.mask ≡ t % 2 ^ k
  tail_cell = rw (v.tail_eq, v.mask_eq) (word-bit_and k t (omega (arith, v.narrow)))

  pub size_bounds : (2 ≤ 2 ^ k) × (2 ^ k ≤ 2 ^ 63)
  size_bounds = (two-le-pow k v.wide, pow-le-half k v.narrow)

  pub in_range : (x : ℕ) → x % 2 ^ k < length rb.cells
  in_range x = rw v.cells_eq (omega (arith, size_bounds))

-- The cells of a new ring carry their own indices.
seq-init_cells :
    (i j : ℕ) (raw : List Cell) → j < length raw → (get_or (init_cells i raw) j no_cell).seq ≡ i + j
unfolding init_cells
seq-init_cells i j [] h = elim h [ ]
seq-init_cells i zero (c ∷ cs) h = omega arith
seq-init_cells i (suc j) (c ∷ cs) h = omega (arith, seq-init_cells (suc i) j cs (omega arith))

length-init_cells : (i : ℕ) (raw : List Cell) → length (init_cells i raw) ≡ length raw
unfolding init_cells
length-init_cells i [] = refl
length-init_cells i (c ∷ cs) = ap suc (length-init_cells (suc i) cs)

-- A ring whose cells carry their own indices is empty, at a size from 2 to 2 ^ 63.
pub fresh-IsRing :
    (k : ℕ) (cells : List Cell)
    → 1 ≤ k
    → k ≤ 63
    → length cells ≡ 2 ^ k
    → ((j : ℕ) → j < length cells → (get_or cells j no_cell).seq ≡ j)
    → IsRing k 0 0
        (record { size = 2 ^ k; mask = sub_u64 (2 ^ k) 1; head = 0; tail = 0; cells = cells })
fresh-IsRing k cells lo hi len seqs = record {
  wide = lo;
  narrow = hi;
  size_eq = refl;
  mask_eq = omega (arith, two-le-pow k lo, pow-le-half k hi);
  cells_eq = len;
  head_eq = refl;
  tail_eq = refl;
  fits = omega arith;
  filled = λ j p. absurd (omega arith);
  vacant = λ j p q.
      rw (mod-eq_of_lt {n = 0 + j} {m = 2 ^ k} (omega arith))
        (omega (arith, seqs (0 + j) (omega (arith, len)), pow-le-half k hi));
}

-- `create_ringbuf` at a size that is a power of two from 2 to 2 ^ 63 makes an empty ring.
pub create_ringbuf-IsRing :
    (k : ℕ) (raw : List Cell) {rb : Ringbuf}
    → 1 ≤ k
    → k ≤ 63
    → length raw ≡ 2 ^ k
    → create_ringbuf true (some raw) (2 ^ k) ≡ some rb
    → IsRing k 0 0 rb
unfolding create_ringbuf
create_ringbuf-IsRing k raw {rb} lo hi len e = subst (IsRing k 0 0) (some-injective _ _ e) (
    fresh-IsRing k (init_cells 0 raw) lo hi (length-init_cells 0 raw ∙ len)
      (λ j h. seq-init_cells 0 j raw (omega (arith, length-init_cells 0 raw)) ∙ omega arith))
