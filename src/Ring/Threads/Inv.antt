-- ===== src/Ring/Threads/Inv.antt =====
-- The invariant of a ring of 2 ^ k cells under several threads. It speaks of fewer than 2 ^ 62
-- accesses, so that no word wraps and a position is the word that holds it.
use Prim.{Unit}
use libkpnet.Base.{
  ℕ, ◌+◌, ◌-◌, ◌%◌, ◌^◌, ◌≤◌, ◌<◌, bit_and, ◌≡◌, ◌≢◌, ◌⊎◌, arith, Option, none, some, length,
  bit_and_mask, dec_lt, ap, ◌∙◌,
}
use libkpnet.Ring.{Cell, Ringbuf, cell_at}
use libkpnet.Ring.Inv.{packet_at, two-le-pow, pow-le-half}
use libkpnet.Ring.Index.{mod-add_self}
use libkpnet.Ring.Threads.{
  Pc, pushing, popping, load_seq, swap_head, store_packet, store_plen, store_seq, check_seq,
  swap_tail, release, System,
}

-- The sequence number and the packet in the cell of a position.
abbrev pub seq_at : (k : ℕ) → Ringbuf → ℕ → ℕ
seq_at k rb q = (cell_at rb (q % 2 ^ k)).seq

abbrev pub held_at : (k : ℕ) → Ringbuf → ℕ → ℕ × ℕ
held_at k rb q = packet_at rb (q % 2 ^ k)

-- A cell whose position a push has taken, and one that waits for the push of its position.
abbrev pub IsFilled : Cell → ℕ → ℕ × ℕ → Type 0
IsFilled c q w = (c.seq ≡ q) ⊎ ((c.seq ≡ q + 1) × ((c.packet, c.plen) ≡ w))

abbrev pub IsVacant : (k : ℕ) → Cell → ℕ → Type 0
IsVacant k c q = (c.seq ≡ q) ⊎ (c.seq + 2 ^ k ≡ q + 1)

-- Positions from `tail` to `head` are taken by pushes; those behind `head` are vacant or wait for
-- a pop that has taken the position one round before.
pub record IsShared (k : ℕ) (rb : Ringbuf) (log : ℕ → ℕ × ℕ) : Type 0 where
  pub wide : 1 ≤ k
  pub narrow : k ≤ 63
  pub mask_eq : rb.mask ≡ 2 ^ k - 1
  pub cells_eq : length rb.cells ≡ 2 ^ k
  pub bound : (q : ℕ) → seq_at k rb q ≤ rb.tail + 2 ^ k
  pub passed : (q : ℕ) → q < rb.tail → q + 1 ≤ seq_at k rb q
  pub ordered : rb.tail ≤ rb.head
  pub fits : rb.head ≤ rb.tail + 2 ^ k
  pub filled : (q : ℕ) → rb.tail ≤ q → q < rb.head → IsFilled (cell_at rb (q % 2 ^ k)) q (log q)
  pub vacant : (q : ℕ) → rb.head ≤ q → q < rb.tail + 2 ^ k → IsVacant k (cell_at rb (q % 2 ^ k)) q

-- The owner of position `q`: a push that has not stored `seq` yet, or a pop one round before.
abbrev pub Owns : (k : ℕ) → Ringbuf → ℕ → Type 0
Owns k rb q =
    (rb.tail ≤ q)
    × (q < rb.tail + 2 ^ k)
    × (((q < rb.head) × (seq_at k rb q ≡ q)) ⊎ ((rb.head ≤ q) × (seq_at k rb q + 2 ^ k ≡ q + 1)))

-- A push between its compare-exchange and its store to `seq`, and a pop.
abbrev pub Fills : (k : ℕ) → Ringbuf → (ℕ → ℕ × ℕ) → (packet plen pos : ℕ) → Type 0
Fills k rb log packet plen pos =
    (rb.tail ≤ pos) × (pos < rb.head) × (seq_at k rb pos ≡ pos) × (log pos ≡ (packet, plen))

abbrev pub Drains : (k : ℕ) → Ringbuf → (ℕ → ℕ × ℕ) → (pos : ℕ) → Type 0
Drains k rb log pos =
    (pos < rb.tail)
    × (rb.head ≤ pos + 2 ^ k)
    × (seq_at k rb pos ≡ pos + 1)
    × (held_at k rb pos ≡ log pos)

-- What a thread knows of the ring where it stands.
abbrev pub Knows : (k : ℕ) → Ringbuf → (ℕ → ℕ × ℕ) → Pc → Type 0
Knows k rb log (pushing (load_seq packet plen pos)) = pos ≤ rb.head
Knows k rb log (pushing (swap_head packet plen pos)) =
    (pos ≤ rb.head) × (pos ≡ rb.head → seq_at k rb pos ≡ pos)
Knows k rb log (pushing (store_packet packet plen pos)) = Fills k rb log packet plen pos
Knows k rb log (pushing (store_plen packet plen pos)) =
    Fills k rb log packet plen pos × ((held_at k rb pos).0 ≡ packet)
Knows k rb log (pushing (store_seq packet plen pos)) =
    Fills k rb log packet plen pos × (held_at k rb pos ≡ (packet, plen))
Knows k rb log (popping (check_seq pos)) = pos ≤ rb.tail
Knows k rb log (popping (swap_tail pos)) =
    (pos ≤ rb.tail) × (pos ≡ rb.tail → seq_at k rb pos ≡ pos + 1)
Knows k rb log (popping (release pos)) = Drains k rb log pos
Knows k rb log _ = Unit

-- The position whose cell a thread owns: a pop owns it for the push one round later.
abbrev pub own_pos : (k : ℕ) → Pc → Option ℕ
own_pos k (pushing (store_packet packet plen pos)) = some pos
own_pos k (pushing (store_plen packet plen pos)) = some pos
own_pos k (pushing (store_seq packet plen pos)) = some pos
own_pos k (popping (release pos)) = some (pos + 2 ^ k)
own_pos k _ = none

pub record IsSafe (k n : ℕ) (s : System) : Type 0 where
  pub shared : IsShared k s.ring s.log
  pub few : s.ring.head ≤ n
  pub knows : (i : ℕ) → Knows k s.ring s.log (s.pc i)
  pub busy : (q : ℕ) → Owns k s.ring q → (i : ℕ) × (own_pos k (s.pc i) ≡ some q)
  pub alone : (i j : ℕ) {q : ℕ} → own_pos k (s.pc i) ≡ some q → own_pos k (s.pc j) ≡ some q → i ≡ j

-- Positions less than a round apart fall on different cells.
pub cell_ne : (m i j : ℕ) → i ≢ j → i < j + m → j < i + m → i % m ≢ j % m
cell_ne m i j ne p q e = grind arith

module _ {k : ℕ} {rb : Ringbuf} {log : ℕ → ℕ × ℕ} (v : IsShared k rb log) where
  pub round : (2 ≤ 2 ^ k) × (2 ^ k ≤ 2 ^ 63)
  round = (two-le-pow k v.wide, pow-le-half k v.narrow)

  -- The cell that the code looks at.
  pub cell_eq : (pos : ℕ) → bit_and pos rb.mask ≡ pos % 2 ^ k
  cell_eq pos = rw v.mask_eq (bit_and_mask k pos)

  pub in_range : (q : ℕ) → q % 2 ^ k < length rb.cells
  in_range q = rw v.cells_eq (omega (arith, round))

  seq-round : rb.head ≡ rb.tail + 2 ^ k → seq_at k rb rb.head ≡ seq_at k rb rb.tail
  seq-round e =
      ap (λ i. (cell_at rb i).seq) (ap (λ (q : ℕ). q % 2 ^ k) e ∙ mod-add_self (2 ^ k) rb.tail)

  -- A vacant cell at `head` says that the ring has room, a filled one at `tail` that it is not empty.
  pub room : seq_at k rb rb.head ≡ rb.head → rb.head < rb.tail + 2 ^ k
  room e = elim (dec_lt rb.head (rb.tail + 2 ^ k)) [
    | yes p ↦ p
    | no p ↦ absurd (room_full (omega (arith, v.fits)) e)
  ]
    where
      room_full : rb.head ≡ rb.tail + 2 ^ k → ¬ (seq_at k rb rb.head ≡ rb.head)
      room_full e h = ground (arith, seq-round e, v.filled rb.tail, round)

  pub some_filled : seq_at k rb rb.tail ≡ rb.tail + 1 → rb.tail < rb.head
  some_filled e = ground (arith, v.vacant rb.tail, v.ordered, round)
