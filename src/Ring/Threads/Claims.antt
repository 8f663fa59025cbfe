-- ===== src/Ring/Threads/Claims.antt =====
-- What a compare-exchange that takes the position at `head` or `tail` leaves true.
use Prim.{tt}
use libkpnet.Base.{
  ℕ, ◌+◌, ◌%◌, ◌^◌, ◌≡◌, ◌≢◌, inl, inr, refl, arith, ap, ◌∙◌, ℕ_discrete, sym, subst, ne→==, eq→==,
}
use libkpnet.Ring.{Ringbuf, cell_at}
use libkpnet.Ring.Index.{mod-add_self}
use libkpnet.Ring.Threads.{
  Pc, idle, pushing, popping, pushed, popped, load_head, load_seq, swap_head, store_packet,
  store_plen, store_seq, load_tail, check_seq, swap_tail, release, update,
}
use libkpnet.Ring.Threads.Inv.{
  seq_at, held_at, IsFilled, IsShared, Fills, Knows, round, room, some_filled,
}

-- The cell of a position is that of the position one round later.
pub seq_round : (k : ℕ) (rb : Ringbuf) (p : ℕ) → seq_at k rb (p + 2 ^ k) ≡ seq_at k rb p
seq_round k rb p = ap (λ i. (cell_at rb i).seq) (mod-add_self (2 ^ k) p)

module _ {k : ℕ} {rb : Ringbuf} {log : ℕ → ℕ × ℕ} (v : IsShared k rb log) where
  module _ (w : ℕ × ℕ) (e : seq_at k rb rb.head ≡ rb.head) where
    abbrev pub head_taken : Ringbuf
    head_taken = record rb { head = rb.head + 1 }

    abbrev pub noted : ℕ → ℕ × ℕ
    noted = update log rb.head w

    noted_ne : (p : ℕ) → p ≢ rb.head → noted p ≡ log p
    noted_ne p ne = rw (ne→== rb.head p (λ h. ne (sym h))) refl

    pub noted_self : noted rb.head ≡ w
    noted_self = rw (eq→== rb.head) refl

    -- No pop still owns the cell.
    pub not_drained : (p : ℕ) → seq_at k rb p ≡ p + 1 → rb.head ≢ p + 2 ^ k
    not_drained p h same = ground (arith, e, h, seq_round k rb p, ap (seq_at k rb) same, round v)

    pub Knows-push : (p : Pc) → Knows k rb log p → Knows k head_taken noted p
    Knows-push idle h = tt
    Knows-push (pushed ok) h = tt
    Knows-push (popped cell) h = tt
    Knows-push (pushing (load_head a l)) h = tt
    Knows-push (pushing (load_seq a l pos)) h = omega arith
    Knows-push (pushing (swap_head a l pos)) (h, i) = (omega arith, λ j. absurd (omega arith))
    Knows-push (pushing (store_packet a l pos)) (lo, hi, seq, ok) =
        (lo, omega arith, seq, noted_ne pos (omega arith) ∙ ok)
    Knows-push (pushing (store_plen a l pos)) ((lo, hi, seq, ok), i) =
        ((lo, omega arith, seq, noted_ne pos (omega arith) ∙ ok), i)
    Knows-push (pushing (store_seq a l pos)) ((lo, hi, seq, ok), i) =
        ((lo, omega arith, seq, noted_ne pos (omega arith) ∙ ok), i)
    Knows-push (popping load_tail) h = tt
    Knows-push (popping (check_seq pos)) h = h
    Knows-push (popping (swap_tail pos)) h = h
    Knows-push (popping (release pos)) (lo, hi, seq, ok) = (
      lo,
      omega (arith, not_drained pos seq),
      seq,
      ok ∙ sym (noted_ne pos (omega (arith, v.ordered))),
    )

    pub IsShared-push : IsShared k head_taken noted
    IsShared-push = record {
      wide = v.wide;
      narrow = v.narrow;
      mask_eq = v.mask_eq;
      cells_eq = v.cells_eq;
      bound = v.bound;
      passed = v.passed;
      ordered = omega (arith, v.ordered);
      fits = omega (arith, room v e);
      filled = λ p lo hi. elim (ℕ_discrete p rb.head) [
        | yes h ↦ inl (ap (seq_at k rb) h ∙ e ∙ sym h)
        | no ne ↦
            subst (IsFilled (cell_at rb (p % 2 ^ k)) p) (sym (noted_ne p ne))
              (v.filled p lo (omega arith))
      ];
      vacant = λ p lo hi. v.vacant p (omega arith) hi;
    }

  module _ (e : seq_at k rb rb.tail ≡ rb.tail + 1) where
    abbrev pub tail_taken : Ringbuf
    tail_taken = record rb { tail = rb.tail + 1 }

    -- No push still owns the cell.
    not_filling : (p : ℕ) → seq_at k rb p ≡ p → rb.tail ≢ p
    not_filling p h same = ground (arith, e, h, ap (seq_at k rb) same)

    still_filled : {a l pos : ℕ} → Fills k rb log a l pos → Fills k tail_taken log a l pos
    still_filled {pos = pos} (lo, hi, seq, ok) = (omega (arith, not_filling pos seq), hi, seq, ok)

    pub Knows-pop : (p : Pc) → Knows k rb log p → Knows k tail_taken log p
    Knows-pop idle h = tt
    Knows-pop (pushed ok) h = tt
    Knows-pop (popped cell) h = tt
    Knows-pop (pushing (load_head a l)) h = tt
    Knows-pop (pushing (load_seq a l pos)) h = h
    Knows-pop (pushing (swap_head a l pos)) h = h
    Knows-pop (pushing (store_packet a l pos)) h = still_filled h
    Knows-pop (pushing (store_plen a l pos)) (h, i) = (still_filled h, i)
    Knows-pop (pushing (store_seq a l pos)) (h, i) = (still_filled h, i)
    Knows-pop (popping load_tail) h = tt
    Knows-pop (popping (check_seq pos)) h = omega arith
    Knows-pop (popping (swap_tail pos)) (h, i) = (omega arith, λ j. absurd (omega arith))
    Knows-pop (popping (release pos)) (lo, hi, seq, ok) = (omega arith, hi, seq, ok)

    pub IsShared-pop : IsShared k tail_taken log
    IsShared-pop = record {
      wide = v.wide;
      narrow = v.narrow;
      mask_eq = v.mask_eq;
      cells_eq = v.cells_eq;
      bound = λ p. omega (arith, v.bound p);
      passed = λ p h. elim (ℕ_discrete p rb.tail) [
        | yes i ↦ omega (arith, ap (seq_at k rb) i)
        | no ne ↦ v.passed p (omega arith)
      ];
      ordered = omega (arith, some_filled v e);
      fits = omega (arith, v.fits);
      filled = λ p lo hi. v.filled p (omega arith) hi;
      vacant = λ p lo hi. elim (ℕ_discrete p (rb.tail + 2 ^ k)) [
        | yes h ↦ inr (omega (arith, ap (seq_at k rb) h, seq_round k rb rb.tail))
        | no ne ↦ v.vacant p lo (omega arith)
      ];
    }

    -- The pop sees what the push of its position brought.
    pub held-tail : held_at k rb rb.tail ≡ log rb.tail
    held-tail = ground (arith, v.filled rb.tail, some_filled v e)
