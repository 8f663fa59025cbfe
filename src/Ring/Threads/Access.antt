-- ===== src/Ring/Threads/Access.antt =====
-- What one access of one thread keeps: the invariant, and what the other threads know.
use libkpnet.Base.{
  ℕ, ◌+◌, ◌^◌, ◌≤◌, ◌<◌, ◌==◌, ◌≡◌, ◌≢◌, ◌⊎◌, inl, inr, arith, ap, ◌∙◌, ℕ_discrete, sym, subst,
  true, none, some, sub_u64, bit_and,
}
use libkpnet.Ring.{Cell, Ringbuf, cell_at}
use libkpnet.Ring.Threads.{
  Pc, idle, pushing, popping, pushed, popped, load_head, load_seq, swap_head, store_packet,
  store_plen, store_seq, load_tail, check_seq, swap_tail, release, update,
}
use libkpnet.Ring.Threads.Inv.{seq_at, IsShared, Owns, Knows, own_pos, round, cell_eq}
use libkpnet.Ring.Threads.Claims.{
  noted_self, Knows-push, IsShared-push, Knows-pop, IsShared-pop, held-tail, not_drained,
}
use libkpnet.Ring.Threads.Writes.{Leaves, after, Owns-before, Knows-kept, IsShared-write}
use mathlib.Core.Option.{some-injective}

-- The access of a thread at `own`, after which the thread stands at `next`.
pub record IsAccess (k : ℕ) (rb : Ringbuf) (log : ℕ → ℕ × ℕ) (own : Pc) (rb' : Ringbuf)
    (log' : ℕ → ℕ × ℕ) (next : Pc) : Type 0 where
  pub shared : IsShared k rb' log'
  pub small : rb'.head ≤ rb.head + 1
  pub known : Knows k rb' log' next
  pub others :
      (p : Pc)
      → ((q : ℕ) → own_pos k own ≡ some q → own_pos k p ≢ some q)
      → Knows k rb log p
      → Knows k rb' log' p
  pub fresh :
      (p : Pc) {q : ℕ}
      → Knows k rb log p
      → own_pos k next ≡ some q
      → own_pos k p ≡ some q
      → own_pos k own ≡ some q
  pub busy :
      (q : ℕ) → Owns k rb' q → (own_pos k next ≡ some q) ⊎ (Owns k rb q × (own_pos k own ≢ some q))

module _ {k : ℕ} {rb : Ringbuf} {log : ℕ → ℕ × ℕ} (v : IsShared k rb log) where
  -- An access that only loads.
  pub quiet :
      (own next : Pc)
      → own_pos k own ≡ none
      → own_pos k next ≡ none
      → Knows k rb log next
      → IsAccess k rb log own rb log next
  quiet own next f e h = record {
    shared = v;
    small = omega arith;
    known = h;
    others = λ p ne i. i;
    fresh = λ p i s. cc;
    busy = λ q o. inr (o, λ t. cc);
  }

  -- A store to the cell that the thread owns, after which it owns the same or none.
  pub written :
      (own next : Pc) (q : ℕ) (c : Cell)
      → Owns k rb q
      → Leaves k rb log q c
      → own_pos k own ≡ some q
      → ((p : ℕ) → own_pos k next ≡ some p → p ≡ q)
      → (Owns k (after v q c) q → own_pos k next ≡ some q)
      → Knows k (after v q c) log next
      → IsAccess k rb log own (after v q c) log next
  written own next q c o l e f g h = record {
    shared = IsShared-write v q c o l;
    small = omega arith;
    known = h;
    others = λ p ne i. Knows-kept v q c o p (ne q e) i;
    fresh = λ p i s t. e ∙ ap some (sym (f _ s));
    busy = λ p i. elim (ℕ_discrete p q) [
      | yes j ↦ inl (
          subst (λ (x : ℕ). own_pos k next ≡ some x) (sym j) (g (subst (Owns k (after v q c)) j i)))
      | no ne ↦ inr (Owns-before v q c o p ne i, λ t. ne (some-injective _ _ (sym t ∙ e)))
    ];
  }

  -- The compare-exchange on `head`.
  head_fresh :
      (p : Pc) {q : ℕ}
      → seq_at k rb rb.head ≡ rb.head
      → Knows k rb log p
      → rb.head ≡ q
      → own_pos k p ≢ some q
  head_fresh (pushing (store_packet a l pos)) e (lo, hi, seq, ok) s =
      λ t. omega (arith, some-injective _ _ t)
  head_fresh (pushing (store_plen a l pos)) e ((lo, hi, seq, ok), i) s =
      λ t. omega (arith, some-injective _ _ t)
  head_fresh (pushing (store_seq a l pos)) e ((lo, hi, seq, ok), i) s =
      λ t. omega (arith, some-injective _ _ t)
  head_fresh (popping (release pos)) e (lo, hi, seq, ok) s =
      λ t. not_drained v (0, 0) e pos seq (s ∙ sym (some-injective _ _ t))
  head_fresh idle e h s = λ t. cc
  head_fresh (pushed ok) e h s = λ t. cc
  head_fresh (popped cell) e h s = λ t. cc
  head_fresh (pushing (load_head a l)) e h s = λ t. cc
  head_fresh (pushing (load_seq a l pos)) e h s = λ t. cc
  head_fresh (pushing (swap_head a l pos)) e h s = λ t. cc
  head_fresh (popping load_tail) e h s = λ t. cc
  head_fresh (popping (check_seq pos)) e h s = λ t. cc
  head_fresh (popping (swap_tail pos)) e h s = λ t. cc

  tail_fresh : (p : Pc) {q : ℕ} → Knows k rb log p → rb.tail + 2 ^ k ≡ q → own_pos k p ≢ some q
  tail_fresh (pushing (store_packet a l pos)) (lo, hi, seq, ok) s =
      λ t. omega (arith, some-injective _ _ t, v.fits)
  tail_fresh (pushing (store_plen a l pos)) ((lo, hi, seq, ok), i) s =
      λ t. omega (arith, some-injective _ _ t, v.fits)
  tail_fresh (pushing (store_seq a l pos)) ((lo, hi, seq, ok), i) s =
      λ t. omega (arith, some-injective _ _ t, v.fits)
  tail_fresh (popping (release pos)) (lo, hi, seq, ok) s = λ t. omega (arith, some-injective _ _ t)
  tail_fresh idle h s = λ t. cc
  tail_fresh (pushed ok) h s = λ t. cc
  tail_fresh (popped cell) h s = λ t. cc
  tail_fresh (pushing (load_head a l)) h s = λ t. cc
  tail_fresh (pushing (load_seq a l pos)) h s = λ t. cc
  tail_fresh (pushing (swap_head a l pos)) h s = λ t. cc
  tail_fresh (popping load_tail) h s = λ t. cc
  tail_fresh (popping (check_seq pos)) h s = λ t. cc
  tail_fresh (popping (swap_tail pos)) h s = λ t. cc

  -- A compare-exchange that succeeds.
  pub take_head :
      (a l : ℕ)
      → seq_at k rb rb.head ≡ rb.head
      → IsAccess k rb log
          (pushing (swap_head a l rb.head))
          (record rb { head = rb.head + 1 })
          (update log rb.head (a, l))
          (pushing (store_packet a l rb.head))
  take_head a l e = record {
    shared = IsShared-push v (a, l) e;
    small = omega arith;
    known = (v.ordered, omega arith, e, noted_self v (a, l) e);
    others = λ p ne i. Knows-push v (a, l) e p i;
    fresh = λ p i s t. absurd (head_fresh p e i (some-injective _ _ s) t);
    busy = λ p i. elim (ℕ_discrete p rb.head) [
      | yes j ↦ inl (ap some (sym j))
      | no ne ↦ inr (ground arith, λ t. cc)
    ];
  }

  pub take_tail :
      seq_at k rb rb.tail ≡ rb.tail + 1
      → IsAccess k rb log
          (popping (swap_tail rb.tail))
          (record rb { tail = rb.tail + 1 })
          log
          (popping (release rb.tail))
  take_tail e = record {
    shared = IsShared-pop v e;
    small = omega arith;
    known = (omega arith, v.fits, e, held-tail v e);
    others = λ p ne i. Knows-pop v e p i;
    fresh = λ p i s t. absurd (tail_fresh p i (some-injective _ _ s) t);
    busy = λ p i. elim (ℕ_discrete p (rb.tail + 2 ^ k)) [
      | yes j ↦ inl (ap some (sym j))
      | no ne ↦ inr (ground arith, λ t. cc)
    ];
  }

  -- `diff` is 0 only for equal words.
  pub same_word : (s p : ℕ) → s < 2 ^ 64 → p < 2 ^ 64 → (sub_u64 s p == 0) ≡ true → s ≡ p
  same_word s p h i e = ground arith

  pub word_at : (pos : ℕ) → (cell_at rb (bit_and pos rb.mask)).seq ≡ seq_at k rb pos
  word_at pos = ap (λ i. (cell_at rb i).seq) (cell_eq v pos)

  pub word_bound : (pos : ℕ) → rb.head < 2 ^ 62 → (cell_at rb (bit_and pos rb.mask)).seq < 2 ^ 64
  word_bound pos h = omega (arith, word_at pos, v.bound pos, v.ordered, round v)
