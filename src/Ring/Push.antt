-- ===== src/Ring/Push.antt =====
-- `push_ringbuf` on a valid ring.
use libkpnet.Base.{
  ℕ, zero, suc, ◌+◌, ◌%◌, ◌^◌, ◌≤◌, ◌<◌, bit_and, ◌≡◌, refl, arith, true, false, none, some, u64,
  sub_u64, ap, ◌∙◌, ℕ_discrete, dec_lt, ◌≢◌, sym, ap₂, length-set, get_or-set_self, get_or-set_ne,
  ◌++◌, [], ◌∷◌,
}
use libkpnet.Ring.{Cell, Ringbuf, no_cell, cell_at, push_loop, push_at, push_ringbuf}
use libkpnet.Ring.Inv.{IsRing, head_cell, size_bounds, in_range, window}
use libkpnet.Ring.Index.{mod-add_self, mod_shift_ne}

abbrev gap : Ringbuf → ℕ
gap rb = sub_u64 (cell_at rb (bit_and rb.head rb.mask)).seq rb.head

push_loop_retry :
    (f s : ℕ) (rb : Ringbuf)
    → gap rb ≡ 0
    → push_loop (suc f) (suc s) rb rb.head ≡ push_loop f s rb rb.head
unfolding push_loop
push_loop_retry f s rb e = ground arith

push_loop_room :
    (s : ℕ) (rb : Ringbuf) → gap rb ≡ 0 → push_loop (suc s) s rb rb.head ≡ some (some rb.head)
push_loop_room zero rb e = unfold push_loop in rw e
push_loop_room (suc s) rb e = push_loop_retry (suc s) s rb e ∙ push_loop_room s rb e

push_loop_full :
    (s : ℕ) (rb : Ringbuf) → 2 ^ 63 ≤ gap rb → push_loop (suc s) s rb rb.head ≡ some none
unfolding push_loop
push_loop_full s rb h = ground arith

-- The two orders of `mod_shift_ne` in one.
mod_shift_ne' : (m t i j : ℕ) → i ≢ j → i < m → j < m → (t + i) % m ≢ (t + j) % m
mod_shift_ne' m t i j ne p q = elim (dec_lt i j) [
  | yes h ↦ mod_shift_ne m t i j h (omega arith)
  | no h ↦ λ e. mod_shift_ne m t j i (omega arith) (omega arith) (sym e)
]

module _ {k t n : ℕ} {rb : Ringbuf} (v : IsRing k t n rb) where
  gap-room : n < 2 ^ k → gap rb ≡ 0
  gap-room h = rw (head_cell v, v.vacant n (omega arith) h, v.head_eq) (omega arith)

  first_filled : 0 < n → (cell_at rb (t % 2 ^ k)).seq ≡ u64 (t + 1)
  first_filled h = ground (arith, v.filled 0)

  -- On a full ring the cell at `head` still waits for the pop of the round before.
  gap-full : n ≡ 2 ^ k → 2 ^ 63 ≤ gap rb
  gap-full h =
      rw
        (
          head_cell v,
          ap (λ (m : ℕ). (t + m) % 2 ^ k) h,
          mod-add_self (2 ^ k) t,
          first_filled (omega (arith, size_bounds v)),
          v.head_eq,
        )
        (omega (arith, size_bounds v))

  -- The packet and its length go to the cell of position `t + n`.
  pub push_ringbuf-room :
      (s packet plen : ℕ)
      → n < 2 ^ k
      → push_ringbuf s rb packet plen ≡ some (true, push_at rb rb.head packet plen)
  unfolding push_ringbuf
  push_ringbuf-room s packet plen h = ground (arith, push_loop_room s rb (gap-room h))

  pub push_ringbuf-full :
      (s packet plen : ℕ) → n ≡ 2 ^ k → push_ringbuf s rb packet plen ≡ some (false, rb)
  unfolding push_ringbuf
  push_ringbuf-full s packet plen h = ground (arith, push_loop_full s rb (gap-full h))

  abbrev pub new_cell : ℕ → ℕ → Cell
  new_cell packet plen = record { seq = u64 (rb.head + 1); plen = plen; packet = packet }

  pub cell_at-push_self :
      (packet plen : ℕ)
      → cell_at (push_at rb rb.head packet plen) ((t + n) % 2 ^ k) ≡ new_cell packet plen
  unfolding push_at
  cell_at-push_self packet plen =
      rw (head_cell v) (get_or-set_self rb.cells _ _ no_cell (in_range v (t + n)))

  -- The other cells are left alone.
  pub cell_at-push_ne :
      (packet plen j : ℕ)
      → j < 2 ^ k
      → j ≢ n
      → n < 2 ^ k
      → cell_at (push_at rb rb.head packet plen) ((t + j) % 2 ^ k) ≡ cell_at rb ((t + j) % 2 ^ k)
  unfolding push_at
  cell_at-push_ne packet plen j h ne room =
      rw (head_cell v) (
        get_or-set_ne rb.cells _ _ _ no_cell (mod_shift_ne' (2 ^ k) t n j (λ e. ne (sym e)) room h))

  -- `push_ringbuf` keeps the invariant.
  pub push_at-IsRing :
      (packet plen : ℕ) → n < 2 ^ k → IsRing k t (suc n) (push_at rb rb.head packet plen)
  push_at-IsRing packet plen h = record {
    wide = v.wide;
    narrow = v.narrow;
    size_eq = unfold push_at in v.size_eq;
    mask_eq = unfold push_at in v.mask_eq;
    cells_eq = unfold push_at in (length-set rb.cells _ _ ∙ v.cells_eq);
    head_eq = unfold push_at in (omega (arith, v.head_eq));
    tail_eq = unfold push_at in v.tail_eq;
    fits = h;
    filled = λ j p. elim (ℕ_discrete j n) [
      | yes e ↦ rw (e, cell_at-push_self packet plen) (omega (arith, v.head_eq))
      | no ne ↦ rw (cell_at-push_ne packet plen j (omega arith) ne h) (v.filled j (omega arith))
    ];
    vacant =
        λ j p q. rw (cell_at-push_ne packet plen j q (omega arith) h) (v.vacant j (omega arith) q);
  }

  window-push :
      (packet plen i m : ℕ)
      → i + m ≡ n
      → n < 2 ^ k
      → window (push_at rb rb.head packet plen) k t i (suc m)
        ≡ window rb k t i m ++ (packet, plen) ∷ []
  window-push packet plen i zero e h =
      let e' : i ≡ n = omega arith in rw (e', cell_at-push_self packet plen) refl
  window-push packet plen i (suc m) e h =
      ap₂ ◌∷◌
        (ap (λ c. (c.packet, c.plen)) (cell_at-push_ne packet plen i (omega arith) (omega arith) h))
        (window-push packet plen (suc i) m (omega arith) h)

  -- The contents grow by the packet at the end.
  pub contents-push :
      (packet plen : ℕ)
      → n < 2 ^ k
      → window (push_at rb rb.head packet plen) k t 0 (suc n)
        ≡ window rb k t 0 n ++ (packet, plen) ∷ []
  contents-push packet plen h = window-push packet plen 0 n (omega arith) h
