-- ===== src/Ring/Threads/Refusals.antt =====
-- When `push_ringbuf` gives -1 and `pop_ringbuf` gives NULL under several threads.
use libkpnet.Base.{
  ℕ, ◌+◌, ◌^◌, ◌≤◌, ◌<◌, bit_and, ◌≡◌, ◌⊎◌, inl, inr, arith, subst, true, false, Bool, none, some,
  List, length, refl, dec_lt, sub_u64, is_neg64, if◌then◌else◌, u64,
}
use libkpnet.Ring.{Cell, Ringbuf, create_ringbuf, cell_at}
use libkpnet.Ring.Threads.{
  Pc, idle, pushing, popping, pushed, popped, load_head, load_seq, swap_head, store_packet,
  store_plen, store_seq, load_tail, check_seq, swap_tail, release, System, Event, run, start,
  push_move, pop_move,
}
use libkpnet.Ring.Threads.Inv.{Owns, Knows, own_pos, seq_at, IsSafe, round}
use libkpnet.Ring.Threads.Access.{word_at}
use native.Mathlib.Nat.{pow-le-pow_right}
use libkpnet.Ring.Threads.Exclusive.{ran-IsSafe}
use mathlib.Core.Option.{some-injective}

-- A push inside the cell of `pos`, having won the compare-exchange.
abbrev pub Filling : Pc → ℕ → Type 0
Filling (pushing (store_packet a l pos)) p = pos ≡ p
Filling (pushing (store_plen a l pos)) p = pos ≡ p
Filling (pushing (store_seq a l pos)) p = pos ≡ p
Filling _ p = ⊥

-- A pop inside the cell that the push of `p` waits for.
abbrev pub Releasing : ℕ → Pc → ℕ → Type 0
Releasing k (popping (release pos)) p = pos + 2 ^ k ≡ p
Releasing k _ p = ⊥

-- The window behind `head` is vacant: the ring is full, or a pop is about to release the cell.
abbrev pub NoRoom : ℕ → System → Type 0
NoRoom k s = (s.ring.head ≡ s.ring.tail + 2 ^ k) ⊎ ((j : ℕ) × Releasing k (s.pc j) s.ring.head)

-- The ring is empty, or a push is about to publish the cell at `tail`.
abbrev pub NothingThere : System → Type 0
NothingThere s = (s.ring.tail ≡ s.ring.head) ⊎ ((j : ℕ) × Filling (s.pc j) s.ring.tail)

push_refused :
    (same behind : Bool) (a l pos : ℕ)
    → (if same
        then pushing (swap_head a l pos)
        else (if behind then pushed false else pushing (load_head a l)))
      ≡ pushed false
    → behind ≡ true
push_refused true behind a l pos e = cc
push_refused false true a l pos e = refl
push_refused false false a l pos e = cc

pop_refused :
    (same behind : Bool) (pos : ℕ)
    → (if same
        then popping (swap_tail pos)
        else (if behind then popped none else popping load_tail))
      ≡ popped none
    → behind ≡ true
pop_refused true behind pos e = cc
pop_refused false true pos e = refl
pop_refused false false pos e = cc

is_neg64-lt : (s p : ℕ) → s < 2 ^ 63 → p < 2 ^ 63 → is_neg64 (sub_u64 s p) ≡ true → s < p
is_neg64-lt s p h i e = ground arith

-- Whoever owns the position at `tail` of a ring that is not empty is a push, and whoever owns the
-- vacant position at `head` a pop.
module _ (k : ℕ) (rb : Ringbuf) (log : ℕ → ℕ × ℕ) where
  tail-Filling :
      (p : Pc)
      → Knows k rb log p
      → rb.tail < rb.head
      → own_pos k p ≡ some rb.tail
      → Filling p rb.tail
  tail-Filling (pushing (store_packet a l pos)) (lo, hi, h, ok) lt e = some-injective _ _ e
  tail-Filling (pushing (store_plen a l pos)) ((lo, hi, h, ok), i) lt e = some-injective _ _ e
  tail-Filling (pushing (store_seq a l pos)) ((lo, hi, h, ok), i) lt e = some-injective _ _ e
  tail-Filling (popping (release pos)) (lo, hi, h, ok) lt e =
      absurd (omega (arith, some-injective _ _ e))
  tail-Filling idle h lt e = cc
  tail-Filling (pushed ok) h lt e = cc
  tail-Filling (popped cell) h lt e = cc
  tail-Filling (pushing (load_head a l)) h lt e = cc
  tail-Filling (pushing (load_seq a l pos)) h lt e = cc
  tail-Filling (pushing (swap_head a l pos)) h lt e = cc
  tail-Filling (popping load_tail) h lt e = cc
  tail-Filling (popping (check_seq pos)) h lt e = cc
  tail-Filling (popping (swap_tail pos)) h lt e = cc

  head-Releasing :
      (p : Pc)
      → Knows k rb log p
      → rb.head < rb.tail + 2 ^ k
      → own_pos k p ≡ some rb.head
      → Releasing k p rb.head
  head-Releasing (pushing (store_packet a l pos)) (lo, hi, h, ok) lt e =
      absurd (omega (arith, some-injective _ _ e))
  head-Releasing (pushing (store_plen a l pos)) ((lo, hi, h, ok), i) lt e =
      absurd (omega (arith, some-injective _ _ e))
  head-Releasing (pushing (store_seq a l pos)) ((lo, hi, h, ok), i) lt e =
      absurd (omega (arith, some-injective _ _ e))
  head-Releasing (popping (release pos)) (lo, hi, h, ok) lt e = some-injective _ _ e
  head-Releasing idle h lt e = cc
  head-Releasing (pushed ok) h lt e = cc
  head-Releasing (popped cell) h lt e = cc
  head-Releasing (pushing (load_head a l)) h lt e = cc
  head-Releasing (pushing (load_seq a l pos)) h lt e = cc
  head-Releasing (pushing (swap_head a l pos)) h lt e = cc
  head-Releasing (popping load_tail) h lt e = cc
  head-Releasing (popping (check_seq pos)) h lt e = cc
  head-Releasing (popping (swap_tail pos)) h lt e = cc

module _ {k n : ℕ} {s : System} (v : IsSafe k n s) (few : n ≤ 2 ^ 62) (narrow : k ≤ 61) where
  seq_small : (q : ℕ) → (cell_at s.ring (bit_and q s.ring.mask)).seq < 2 ^ 63
  seq_small q =
      let h : 2 ^ k ≤ 2 ^ 61 = pow-le-pow_right {n = 2} (omega arith) narrow in
      omega (arith, h, word_at v.shared q, v.shared.bound q, v.shared.ordered, v.few)

  -- A sequence number behind the position: only at `head`, for a push, and at `tail`, for a pop.
  behind-head : (pos : ℕ) → pos ≤ s.ring.head → seq_at k s.ring pos < pos → pos ≡ s.ring.head
  behind-head pos h lt = elim (dec_lt pos s.ring.tail) [
    | yes p ↦ absurd (omega (arith, v.shared.passed pos p))
    | no p ↦ elim (dec_lt pos s.ring.head) [
      | yes q ↦ absurd (ground (arith, v.shared.filled pos (omega arith) q))
      | no q ↦ omega arith
    ]
  ]

  behind-tail : (pos : ℕ) → pos ≤ s.ring.tail → seq_at k s.ring pos < pos + 1 → pos ≡ s.ring.tail
  behind-tail pos h lt = elim (dec_lt pos s.ring.tail) [
    | yes p ↦ absurd (omega (arith, v.shared.passed pos p))
    | no p ↦ omega arith
  ]

  head-NoRoom : seq_at k s.ring s.ring.head < s.ring.head → NoRoom k s
  head-NoRoom lt = elim (dec_lt s.ring.head (s.ring.tail + 2 ^ k)) [
    | no p ↦ inl (omega (arith, v.shared.fits))
    | yes p ↦
        let o : Owns k s.ring s.ring.head = (
          v.shared.ordered,
          p,
          inr (omega arith, ground (arith, v.shared.vacant s.ring.head (omega arith) p)),
        ) in
        let (j, e) = v.busy s.ring.head o in
        inr (j, head-Releasing k s.ring s.log (s.pc j) (v.knows j) p e)
  ]

  tail-NothingThere : seq_at k s.ring s.ring.tail < s.ring.tail + 1 → NothingThere s
  tail-NothingThere lt = elim (dec_lt s.ring.tail s.ring.head) [
    | no p ↦ inl (omega (arith, v.shared.ordered))
    | yes p ↦
        let o : Owns k s.ring s.ring.tail = (
          omega arith,
          omega (arith, round v.shared),
          inl (p, ground (arith, v.shared.filled s.ring.tail (omega arith) p)),
        ) in
        let (j, e) = v.busy s.ring.tail o in
        inr (j, tail-Filling k s.ring s.log (s.pc j) (v.knows j) p e)
  ]

  push-NoRoom :
      (f : Bool) (a l pos : ℕ)
      → pos ≤ s.ring.head
      → (push_move f s.ring (load_seq a l pos)).1 ≡ pushed false
      → NoRoom k s
  unfolding push_move
  push-NoRoom f a l pos h e =
      let lt : seq_at k s.ring pos < pos = omega (
        arith,
        word_at v.shared pos,
        is_neg64-lt _ pos (seq_small pos) (omega (arith, v.few)) (push_refused _ _ a l pos e),
      ) in
      let same = behind-head pos h lt in
      head-NoRoom (subst (λ (x : ℕ). seq_at k s.ring x < x) same lt)

  pop-NothingThere :
      (f : Bool) (pos : ℕ)
      → pos ≤ s.ring.tail
      → (pop_move f s.ring (check_seq pos)).1 ≡ popped none
      → NothingThere s
  unfolding pop_move
  pop-NothingThere f pos h e =
      let small : pos < 2 ^ 62 + 1 = omega (arith, v.few, v.shared.ordered) in
      let lt : seq_at k s.ring pos < pos + 1 = omega (
        arith,
        word_at v.shared pos,
        is_neg64-lt _ (u64 (pos + 1)) (seq_small pos) (omega arith) (pop_refused _ _ pos e),
      ) in
      let same = behind-tail pos h lt in
      tail-NothingThere (subst (λ (x : ℕ). seq_at k s.ring x < x + 1) same lt)

-- In every interleaving of at most 2 ^ 62 calls and accesses of any threads, on a ring of at most
-- 2 ^ 61 cells that `create_ringbuf` made, `push_ringbuf` gives up only at an access at which the
-- ring is full, or at which a pop has taken the oldest packet and not yet released its cell.
pub run-NoRoom :
    (k : ℕ) (raw : List Cell) {rb : Ringbuf} (es : List Event)
    → 1 ≤ k
    → k ≤ 61
    → length raw ≡ 2 ^ k
    → create_ringbuf true (some raw) (2 ^ k) ≡ some rb
    → length es ≤ 2 ^ 62
    → (i packet plen pos : ℕ) (spurious : Bool)
    → (run (start rb) es).pc i ≡ pushing (load_seq packet plen pos)
    → (push_move spurious (run (start rb) es).ring (load_seq packet plen pos)).1 ≡ pushed false
    → NoRoom k (run (start rb) es)
run-NoRoom k raw {rb} es lo hi len e few i packet plen pos f at gives =
    let s = run (start rb) es in
    let v = ran-IsSafe k raw es lo (omega arith) len e few in
    push-NoRoom v (omega arith) hi f packet plen pos (subst (Knows k s.ring s.log) at (v.knows i))
      gives

-- Under the same conditions, `pop_ringbuf` gives NULL only at an access at which the ring is empty,
-- or at which a push has taken the position at `tail` and not yet stored its `seq`.
pub run-NothingThere :
    (k : ℕ) (raw : List Cell) {rb : Ringbuf} (es : List Event)
    → 1 ≤ k
    → k ≤ 61
    → length raw ≡ 2 ^ k
    → create_ringbuf true (some raw) (2 ^ k) ≡ some rb
    → length es ≤ 2 ^ 62
    → (i pos : ℕ) (spurious : Bool) → (run (start rb) es).pc i ≡ popping (check_seq pos)
    → (pop_move spurious (run (start rb) es).ring (check_seq pos)).1 ≡ popped none
    → NothingThere (run (start rb) es)
run-NothingThere k raw {rb} es lo hi len e few i pos f at gives =
    let s = run (start rb) es in
    let v = ran-IsSafe k raw es lo (omega arith) len e few in
    pop-NothingThere v (omega arith) hi f pos (subst (Knows k s.ring s.log) at (v.knows i)) gives
