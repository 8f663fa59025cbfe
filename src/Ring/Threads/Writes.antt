-- ===== src/Ring/Threads/Writes.antt =====
-- What a store to the cell that a thread owns leaves as it is: the other cells, what the other
-- threads know, and the invariant of the ring.
use Prim.{tt}
use libkpnet.Base.{
  ℕ, ◌+◌, ◌%◌, ◌^◌, ◌≤◌, ◌<◌, ◌≡◌, ◌≢◌, ◌⊎◌, arith, some, ap, ◌∙◌, get_or-set_self, get_or-set_ne,
  length-set, ℕ_discrete, sym, subst,
}
use libkpnet.Ring.{Cell, Ringbuf, no_cell, cell_at}
use libkpnet.Ring.Index.{mod-add_self}
use libkpnet.Ring.Threads.{
  Pc, idle, pushing, popping, pushed, popped, load_head, load_seq, swap_head, store_packet,
  store_plen, store_seq, load_tail, check_seq, swap_tail, release, set_cell,
}
use libkpnet.Ring.Threads.Inv.{
  seq_at, held_at, Owns, IsFilled, IsVacant, IsShared, Fills, Drains, Knows, own_pos, cell_ne,
  round, in_range, room,
}

-- What the owner may leave behind.
abbrev pub Leaves : (k : ℕ) → Ringbuf → (ℕ → ℕ × ℕ) → ℕ → Cell → Type 0
Leaves k rb log q c =
    (seq_at k rb q ≤ c.seq)
    × (c.seq ≤ rb.tail + 2 ^ k)
    × (q < rb.head → IsFilled c q (log q))
    × (rb.head ≤ q → IsVacant k c q)

module _ {k : ℕ} {rb : Ringbuf} {log : ℕ → ℕ × ℕ} (v : IsShared k rb log) (q : ℕ) (c : Cell) where
  abbrev pub after : Ringbuf
  after = set_cell rb (q % 2 ^ k) c

  pub cell_at-after_self : cell_at after (q % 2 ^ k) ≡ c
  cell_at-after_self = get_or-set_self rb.cells _ _ no_cell (in_range v q)

  pub cell_at-after_ne :
      (p : ℕ)
      → q ≢ p
      → q < p + 2 ^ k
      → p < q + 2 ^ k
      → cell_at after (p % 2 ^ k) ≡ cell_at rb (p % 2 ^ k)
  cell_at-after_ne p ne h i =
      get_or-set_ne rb.cells _ _ _ no_cell (cell_ne (2 ^ k) q p ne (omega arith) (omega arith))

  module _ (o : Owns k rb q) where
    -- The positions of the current round.
    pub round_kept :
        (p : ℕ)
        → rb.tail ≤ p
        → p < rb.tail + 2 ^ k
        → p ≢ q
        → cell_at after (p % 2 ^ k) ≡ cell_at rb (p % 2 ^ k)
    round_kept p lo hi ne =
        cell_at-after_ne p (λ e. ne (sym e)) (omega (arith, o)) (omega (arith, o))

    seq_eq : (p : ℕ) → p ≡ q → seq_at k rb p ≡ seq_at k rb q
    seq_eq p e = ap (seq_at k rb) e

    -- The position that a compare-exchange may take next is not the owner's.
    head_kept : (pos : ℕ) → pos ≡ rb.head → seq_at k rb pos ≡ pos → seq_at k after pos ≡ pos
    head_kept pos e h =
        ap (λ (d : Cell). d.seq)
          (round_kept pos (omega (arith, v.ordered))
            (omega (arith, e, room v (ap (seq_at k rb) (sym e) ∙ h ∙ e)))
            (λ same. ground (arith, o, seq_eq pos same, round v)))
        ∙ h

    tail_kept : (pos : ℕ) → pos ≡ rb.tail → seq_at k rb pos ≡ pos + 1 → seq_at k after pos ≡ pos + 1
    tail_kept pos e h =
        ap (λ (d : Cell). d.seq)
          (round_kept pos (omega arith) (omega (arith, round v))
            (λ same. ground (arith, o, seq_eq pos same, round v)))
        ∙ h

    Fills-kept : {a l pos : ℕ} → pos ≢ q → Fills k rb log a l pos → Fills k after log a l pos
    Fills-kept {pos = pos} ne (lo, hi, seq, ok) =
        (lo, hi, ap (λ (d : Cell). d.seq) (round_kept pos lo (omega (arith, v.fits)) ne) ∙ seq, ok)

    Drains-kept : {pos : ℕ} → pos + 2 ^ k ≢ q → Drains k rb log pos → Drains k after log pos
    Drains-kept {pos} ne (lo, hi, seq, ok) = (
      lo,
      hi,
      ap (λ (d : Cell). d.seq) same ∙ seq,
      ap (λ (d : Cell). (d.packet, d.plen)) same ∙ ok,
    )
      where
        same : cell_at after (pos % 2 ^ k) ≡ cell_at rb (pos % 2 ^ k)
        same =
            subst (λ (i : ℕ). cell_at after i ≡ cell_at rb i) (mod-add_self (2 ^ k) pos)
              (round_kept (pos + 2 ^ k) (omega (arith, v.ordered)) (omega arith) ne)

    held_kept :
        {a l pos : ℕ} → pos ≢ q → Fills k rb log a l pos → held_at k after pos ≡ held_at k rb pos
    held_kept {pos = pos} ne (lo, hi, seq, ok) =
        ap (λ (d : Cell). (d.packet, d.plen)) (round_kept pos lo (omega (arith, v.fits)) ne)

    -- What the other threads know stays true.
    pub Knows-kept : (p : Pc) → own_pos k p ≢ some q → Knows k rb log p → Knows k after log p
    Knows-kept idle ne h = tt
    Knows-kept (pushed ok) ne h = tt
    Knows-kept (popped cell) ne h = tt
    Knows-kept (pushing (load_head a l)) ne h = tt
    Knows-kept (pushing (load_seq a l pos)) ne h = h
    Knows-kept (pushing (swap_head a l pos)) ne (h, i) = (h, λ e. head_kept pos e (i e))
    Knows-kept (pushing (store_packet a l pos)) ne h = Fills-kept (λ e. ne (ap some e)) h
    Knows-kept (pushing (store_plen a l pos)) ne (h, i) = (
      Fills-kept (λ e. ne (ap some e)) h,
      ap (λ (d : ℕ × ℕ). d.0) (held_kept (λ e. ne (ap some e)) h) ∙ i,
    )
    Knows-kept (pushing (store_seq a l pos)) ne (h, i) =
        (Fills-kept (λ e. ne (ap some e)) h, held_kept (λ e. ne (ap some e)) h ∙ i)
    Knows-kept (popping load_tail) ne h = tt
    Knows-kept (popping (check_seq pos)) ne h = h
    Knows-kept (popping (swap_tail pos)) ne (h, i) = (h, λ e. tail_kept pos e (i e))
    Knows-kept (popping (release pos)) ne h = Drains-kept (λ e. ne (ap some e)) h

    -- A property of a position and its cell, at the owner's position and at the others.
    each :
        (P : ℕ → Cell → Type 0) {p : ℕ}
        → rb.tail ≤ p
        → p < rb.tail + 2 ^ k
        → (p ≡ q → P q c)
        → P p (cell_at rb (p % 2 ^ k))
        → P p (cell_at after (p % 2 ^ k))
    each P {p} lo hi own old = elim (ℕ_discrete p q) [
      | yes e ↦
          subst (λ (x : ℕ). P x (cell_at after (x % 2 ^ k))) (sym e)
            (subst (P q) (sym cell_at-after_self) (own e))
      | no ne ↦ subst (P p) (sym (round_kept p lo hi ne)) old
    ]

    -- The sequence number in a cell, whatever the position.
    seq-write :
        (P : ℕ → Type 0) (p : ℕ)
        → (p % 2 ^ k ≡ q % 2 ^ k → P c.seq)
        → P (seq_at k rb p)
        → P (seq_at k after p)
    seq-write P p own old = elim (ℕ_discrete (p % 2 ^ k) (q % 2 ^ k)) [
      | yes e ↦
          subst (λ (i : ℕ). P (cell_at after i).seq) (sym e)
            (subst (λ (d : Cell). P d.seq) (sym cell_at-after_self) (own e))
      | no ne ↦
          subst (λ (d : Cell). P d.seq)
            (sym (get_or-set_ne rb.cells _ _ _ no_cell (λ e. ne (sym e)))) old
    ]

    -- A cell is never given back to an earlier position.
    passed-write : seq_at k rb q ≤ c.seq → (p : ℕ) → p < rb.tail → p + 1 ≤ seq_at k after p
    passed-write more p h =
        seq-write (λ x. p + 1 ≤ x) p
          (λ e. omega (arith, v.passed p h, ap (λ i. (cell_at rb i).seq) e)) (v.passed p h)

    -- The invariant stays true.
    pub IsShared-write : Leaves k rb log q c → IsShared k after log
    IsShared-write (more, small, low, high) = record {
      wide = v.wide;
      narrow = v.narrow;
      mask_eq = v.mask_eq;
      cells_eq = length-set rb.cells _ _ ∙ v.cells_eq;
      bound = λ p. seq-write (λ x. x ≤ rb.tail + 2 ^ k) p (λ e. small) (v.bound p);
      passed = passed-write more;
      ordered = v.ordered;
      fits = v.fits;
      filled = λ p lo hi.
          each (λ x d. IsFilled d x (log x)) lo (omega (arith, v.fits)) (λ e. low (omega arith))
            (v.filled p lo hi);
      vacant = λ p lo hi.
          each (λ x d. IsVacant k d x) (omega (arith, v.ordered)) hi (λ e. high (omega arith))
            (v.vacant p lo hi);
    }

    abbrev seq_of : Cell → ℕ
    seq_of d = d.seq

    -- What is owned afterwards was owned before.
    pub Owns-before : (p : ℕ) → p ≢ q → Owns k after p → Owns k rb p
    Owns-before p ne (lo, hi, at) =
        let e : seq_at k after p ≡ seq_at k rb p = ap seq_of (round_kept p lo hi ne) in
        (
          lo,
          hi,
          subst (λ (s : ℕ). ((p < rb.head) × (s ≡ p)) ⊎ ((rb.head ≤ p) × (s + 2 ^ k ≡ p + 1))) e at,
        )

    pub seq-after_self : seq_at k after q ≡ c.seq
    seq-after_self = ap seq_of cell_at-after_self
