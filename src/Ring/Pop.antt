-- ===== src/Ring/Pop.antt =====
-- `pop_ringbuf` on a valid ring.
use libkpnet.Base.{
  ℕ, zero, suc, ◌+◌, ◌%◌, ◌^◌, ◌≤◌, ◌<◌, bit_and, ◌≡◌, refl, sym, ap, ap₂, ◌∙◌, arith, none, some,
  ◌∷◌, length-set, get_or-set_self, get_or-set_ne, u64, sub_u64, ℕ_discrete,
}
use libkpnet.Ring.{Ringbuf, no_cell, cell_at, pop_loop, pop_at, pop_ringbuf}
use libkpnet.Ring.Inv.{IsRing, tail_cell, size_bounds, in_range, packet_at, window}
use libkpnet.Ring.Index.{mod-add_self, mod_shift_ne}

abbrev gap : Ringbuf → ℕ
gap rb = sub_u64 (cell_at rb (bit_and rb.tail rb.mask)).seq (u64 (rb.tail + 1))

pop_loop_retry :
    (f s : ℕ) (rb : Ringbuf)
    → gap rb ≡ 0
    → pop_loop (suc f) (suc s) rb rb.tail ≡ pop_loop f s rb rb.tail
unfolding pop_loop
pop_loop_retry f s rb e = ground arith

pop_loop-some :
    (s : ℕ) (rb : Ringbuf) → gap rb ≡ 0 → pop_loop (suc s) s rb rb.tail ≡ some (some rb.tail)
pop_loop-some zero rb e = unfold pop_loop in rw e
pop_loop-some (suc s) rb e = pop_loop_retry (suc s) s rb e ∙ pop_loop-some s rb e

pop_loop_empty :
    (s : ℕ) (rb : Ringbuf) → 2 ^ 63 ≤ gap rb → pop_loop (suc s) s rb rb.tail ≡ some none
unfolding pop_loop
pop_loop_empty s rb h = ground arith

module _ {k t : ℕ} {rb : Ringbuf} where
  first_filled : {n : ℕ} → IsRing k t n rb → 0 < n → (cell_at rb (t % 2 ^ k)).seq ≡ u64 (t + 1)
  first_filled v h = ground (arith, v.filled 0)

  first_vacant : IsRing k t 0 rb → (cell_at rb (t % 2 ^ k)).seq ≡ u64 t
  first_vacant v = ground (arith, v.vacant 0, size_bounds v)

  gap-some : {n : ℕ} → IsRing k t n rb → 0 < n → gap rb ≡ 0
  gap-some v h = rw (tail_cell v, first_filled v h, v.tail_eq) (omega arith)

  gap-empty : IsRing k t 0 rb → 2 ^ 63 ≤ gap rb
  gap-empty v = rw (tail_cell v, first_vacant v, v.tail_eq) (omega arith)

  -- The pointer returned is that of the cell of position `t`.
  pub pop_ringbuf-some :
      {n : ℕ} (s : ℕ)
      → IsRing k t n rb
      → 0 < n
      → pop_ringbuf s rb ≡ some (some (t % 2 ^ k), pop_at rb rb.tail)
  unfolding pop_ringbuf
  pop_ringbuf-some s v h = ground (arith, pop_loop-some s rb (gap-some v h), tail_cell v)

  pub pop_ringbuf-empty : (s : ℕ) → IsRing k t 0 rb → pop_ringbuf s rb ≡ some (none, rb)
  unfolding pop_ringbuf
  pop_ringbuf-empty s v = ground (arith, pop_loop_empty s rb (gap-empty v))

module _ {k t n : ℕ} {rb : Ringbuf} (v : IsRing k t (suc n) rb) where
  -- The cell popped is left as it is, but for its sequence number.
  cell_at-pop_self :
      cell_at (pop_at rb rb.tail) (t % 2 ^ k)
      ≡ record (cell_at rb (t % 2 ^ k)) { seq = u64 (rb.tail + rb.mask + 1) }
  unfolding pop_at
  cell_at-pop_self = rw (tail_cell v) (get_or-set_self rb.cells _ _ no_cell (in_range v t))

  cell_at-pop_ne :
      (j : ℕ)
      → 0 < j
      → j < 2 ^ k
      → cell_at (pop_at rb rb.tail) ((t + j) % 2 ^ k) ≡ cell_at rb ((t + j) % 2 ^ k)
  unfolding pop_at
  cell_at-pop_ne j p q = rw (tail_cell v) (
      get_or-set_ne rb.cells _ _ _ no_cell
        (λ e. mod_shift_ne (2 ^ k) t 0 j p (omega arith) (ground arith)))

  shift : (j : ℕ) → (suc t + j) % 2 ^ k ≡ (t + suc j) % 2 ^ k
  shift j = ground arith

  last_seq :
      (j : ℕ)
      → suc j ≡ 2 ^ k
      → (cell_at (pop_at rb rb.tail) ((t + suc j) % 2 ^ k)).seq ≡ u64 (suc t + j)
  last_seq j e =
      rw (e, mod-add_self (2 ^ k) t, cell_at-pop_self) (omega (arith, v.tail_eq, v.mask_eq))

  -- `pop_ringbuf` keeps the invariant.
  pub pop_at-IsRing : IsRing k (suc t) n (pop_at rb rb.tail)
  pop_at-IsRing = record {
    wide = v.wide;
    narrow = v.narrow;
    size_eq = unfold pop_at in v.size_eq;
    mask_eq = unfold pop_at in v.mask_eq;
    cells_eq = unfold pop_at in (length-set rb.cells _ _ ∙ v.cells_eq);
    head_eq = unfold pop_at in (omega (arith, v.head_eq));
    tail_eq = unfold pop_at in (omega (arith, v.tail_eq));
    fits = omega (arith, v.fits);
    filled = λ j p.
        rw (shift j, cell_at-pop_ne (suc j) (omega arith) (omega (arith, v.fits)))
          (omega (arith, v.filled (suc j) (omega arith)));
    vacant = λ j p q. rw (shift j) (elim (ℕ_discrete (suc j) (2 ^ k)) [
      | yes e ↦ last_seq j e
      | no ne ↦
          rw (cell_at-pop_ne (suc j) (omega arith) (omega arith))
            (omega (arith, v.vacant (suc j) (omega arith) (omega arith)))
    ]);
  }

  window-pop :
      (i m : ℕ)
      → suc (i + m) ≤ 2 ^ k
      → window (pop_at rb rb.tail) k (suc t) i m ≡ window rb k t (suc i) m
  window-pop i zero h = refl
  window-pop i (suc m) h =
      ap₂ ◌∷◌
        (rw (shift i)
          (ap (λ c. (c.packet, c.plen)) (cell_at-pop_ne (suc i) (omega arith) (omega arith))))
        (window-pop (suc i) m (omega arith))

  -- The contents lose the packet at the front, which the pointer returned still shows.
  pub contents-pop :
      window rb k t 0 (suc n)
      ≡ packet_at (pop_at rb rb.tail) (t % 2 ^ k) ∷ window (pop_at rb rb.tail) k (suc t) 0 n
  contents-pop =
      ap₂ ◌∷◌ (rw cell_at-pop_self (ap (packet_at rb) (ground arith)))
        (sym (window-pop 0 n (omega (arith, v.fits))))
