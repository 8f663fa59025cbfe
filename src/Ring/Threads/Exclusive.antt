-- ===== src/Ring/Threads/Exclusive.antt =====
-- No two threads write to one cell, and a pop takes what the push of its position brought.
use libkpnet.Base.{
  ℕ, ◌+◌, ◌%◌, ◌^◌, ◌≤◌, ◌<◌, bit_and, ◌≡◌, arith, ap, ◌∙◌, ℕ_discrete, sym, subst, true, some,
  List, length, refl,
}
use libkpnet.Ring.{Cell, Ringbuf, create_ringbuf}
use libkpnet.Ring.Index.{mod-add_self}
use libkpnet.Ring.Inv.{packet_at, create_ringbuf-IsRing}
use libkpnet.Ring.Threads.{
  Pc, idle, pushing, popping, pushed, popped, load_head, load_seq, swap_head, store_packet,
  store_plen, store_seq, load_tail, check_seq, swap_tail, release, System, Event, run, start,
  owned_cell,
}
use libkpnet.Ring.Threads.Inv.{IsShared, Knows, own_pos, IsSafe, cell_ne, cell_eq}
use libkpnet.Ring.Threads.Safe.{run-IsSafe, start-IsSafe}
use mathlib.Core.Option.{some-injective}

-- The position in the current round that a thread owns, and its cell.
abbrev OwnsCell : (k : ℕ) → Ringbuf → Pc → ℕ → Type 0
OwnsCell k rb p c =
    (q : ℕ) × (own_pos k p ≡ some q) × (rb.tail ≤ q) × (q < rb.tail + 2 ^ k) × (c ≡ q % 2 ^ k)

module _ {k : ℕ} {rb : Ringbuf} {log : ℕ → ℕ × ℕ} (v : IsShared k rb log) where
  OwnsCell-pos :
      (p : Pc) (pos : ℕ) {c : ℕ}
      → own_pos k p ≡ some pos
      → rb.tail ≤ pos
      → pos < rb.head
      → some (bit_and pos rb.mask) ≡ some c
      → OwnsCell k rb p c
  OwnsCell-pos p pos e lo hi h =
      (pos, e, lo, omega (arith, v.fits), sym (some-injective _ _ h) ∙ cell_eq v pos)

  owned_cell-OwnsCell :
      (p : Pc) {c : ℕ} → Knows k rb log p → owned_cell rb p ≡ some c → OwnsCell k rb p c
  owned_cell-OwnsCell (pushing (store_packet a l pos)) (lo, hi, h, ok) e =
      OwnsCell-pos (pushing (store_packet a l pos)) pos refl lo hi e
  owned_cell-OwnsCell (pushing (store_plen a l pos)) ((lo, hi, h, ok), i) e =
      OwnsCell-pos (pushing (store_plen a l pos)) pos refl lo hi e
  owned_cell-OwnsCell (pushing (store_seq a l pos)) ((lo, hi, h, ok), i) e =
      OwnsCell-pos (pushing (store_seq a l pos)) pos refl lo hi e
  owned_cell-OwnsCell (popping (release pos)) (lo, hi, h, ok) e = (
    pos + 2 ^ k,
    refl,
    omega (arith, v.ordered),
    omega arith,
    sym (some-injective _ _ e) ∙ cell_eq v pos ∙ sym (mod-add_self (2 ^ k) pos),
  )
  owned_cell-OwnsCell idle h e = cc
  owned_cell-OwnsCell (pushed ok) h e = cc
  owned_cell-OwnsCell (popped cell) h e = cc
  owned_cell-OwnsCell (pushing (load_head a l)) h e = cc
  owned_cell-OwnsCell (pushing (load_seq a l pos)) h e = cc
  owned_cell-OwnsCell (pushing (swap_head a l pos)) h e = cc
  owned_cell-OwnsCell (popping load_tail) h e = cc
  owned_cell-OwnsCell (popping (check_seq pos)) h e = cc
  owned_cell-OwnsCell (popping (swap_tail pos)) h e = cc

same_owner :
    {k n : ℕ} {s : System}
    → IsSafe k n s
    → (i j : ℕ) {c : ℕ} → OwnsCell k s.ring (s.pc i) c
    → OwnsCell k s.ring (s.pc j) c
    → i ≡ j
same_owner {k} {s = s} v i j (p, e, lo, hi, h) (q, e', lo', hi', h') = elim (ℕ_discrete p q) [
  | yes same ↦ v.alone i j e (subst (λ (x : ℕ). own_pos k (s.pc j) ≡ some x) (sym same) e')
  | no ne ↦ absurd (cell_ne (2 ^ k) p q ne (omega arith) (omega arith) (sym h ∙ h'))
]

-- A ring that `create_ringbuf` made, after at most 2 ^ 62 calls and accesses of any threads.
pub ran-IsSafe :
    (k : ℕ) (raw : List Cell) {rb : Ringbuf} (es : List Event)
    → 1 ≤ k
    → k ≤ 63
    → length raw ≡ 2 ^ k
    → create_ringbuf true (some raw) (2 ^ k) ≡ some rb
    → length es ≤ 2 ^ 62
    → IsSafe k (0 + length es) (run (start rb) es)
ran-IsSafe k raw es lo hi len e few =
    run-IsSafe es (start-IsSafe (create_ringbuf-IsRing k raw lo hi len e)) (omega arith)

-- In every interleaving of at most 2 ^ 62 calls and accesses of any number of threads on a ring
-- that `create_ringbuf` made for 2 ^ k cells, with 1 ≤ k ≤ 63, no two threads stand between their
-- compare-exchange and their store to `seq` on the same cell.
pub run-Exclusive :
    (k : ℕ) (raw : List Cell) {rb : Ringbuf} (es : List Event)
    → 1 ≤ k
    → k ≤ 63
    → length raw ≡ 2 ^ k
    → create_ringbuf true (some raw) (2 ^ k) ≡ some rb
    → length es ≤ 2 ^ 62
    → (i j : ℕ) {c : ℕ} → owned_cell (run (start rb) es).ring ((run (start rb) es).pc i) ≡ some c
    → owned_cell (run (start rb) es).ring ((run (start rb) es).pc j) ≡ some c
    → i ≡ j
run-Exclusive k raw {rb} es lo hi len e few i j f g =
    let v = ran-IsSafe k raw es lo hi len e few in
    same_owner v i j (owned_cell-OwnsCell v.shared _ (v.knows i) f)
      (owned_cell-OwnsCell v.shared _ (v.knows j) g)

-- Under the same conditions, a pop that has won its compare-exchange at `pos` and has not stored
-- `seq` yet sees in its cell the packet and the length of the push that took `pos`.
pub run-Delivers :
    (k : ℕ) (raw : List Cell) {rb : Ringbuf} (es : List Event)
    → 1 ≤ k
    → k ≤ 63
    → length raw ≡ 2 ^ k
    → create_ringbuf true (some raw) (2 ^ k) ≡ some rb
    → length es ≤ 2 ^ 62
    → (i : ℕ) {pos : ℕ} → (run (start rb) es).pc i ≡ popping (release pos)
    → let s = run (start rb) es in packet_at s.ring (bit_and pos s.ring.mask) ≡ s.log pos
run-Delivers k raw {rb} es lo hi len e few i {pos} f =
    let v = ran-IsSafe k raw es lo hi len e few in
    ap (packet_at (run (start rb) es).ring) (cell_eq v.shared pos)
    ∙ (subst (Knows k (run (start rb) es).ring (run (start rb) es).log) f (v.knows i)).3
