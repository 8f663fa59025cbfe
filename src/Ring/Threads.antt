-- ===== src/Ring/Threads.antt =====
-- src/push_ringbuf.c, src/pop_ringbuf.c, include/ring_buffer.h: the ring under several threads,
-- one access to shared memory at a time. A thread stands between two accesses, with the local
-- variables that are live there; the memory is sequentially consistent.
pub mod Inv
pub mod Claims
pub mod Writes
pub mod Access
pub mod PushMoves
pub mod PopMoves
pub mod Safe
pub mod Exclusive
pub mod Refusals
mod Tests
use libkpnet.Base.{
  ℕ, ◌+◌, bit_and, Bool, true, false, Option, none, some, List, [], ◌∷◌, set, u64, sub_u64,
  is_neg64, ◌==◌, if◌then◌else◌,
}
use libkpnet.Ring.{Cell, Ringbuf, cell_at}

-- Inside `push_ringbuf (rb, packet, plen)`, before the access that the constructor names.
pub data Pushing : Type 0 where
  load_head : (packet plen : ℕ) → Pushing
  load_seq : (packet plen pos : ℕ) → Pushing
  swap_head : (packet plen pos : ℕ) → Pushing
  store_packet : (packet plen pos : ℕ) → Pushing
  store_plen : (packet plen pos : ℕ) → Pushing
  store_seq : (packet plen pos : ℕ) → Pushing

-- Inside `pop_ringbuf (rb)`.
pub data Popping : Type 0 where
  load_tail : Popping
  check_seq : (pos : ℕ) → Popping
  swap_tail : (pos : ℕ) → Popping
  release : (pos : ℕ) → Popping

-- A thread outside both, inside one of them, or just back from it, with the result: true for 0 and
-- false for -1, the index of the cell and none for NULL.
pub data Pc : Type 0 where
  idle : Pc
  pushing : Pushing → Pc
  popping : Popping → Pc
  pushed : (ok : Bool) → Pc
  popped : (cell : Option ℕ) → Pc

-- `rb->cells[i]` replaced.
abbrev pub set_cell : Ringbuf → ℕ → Cell → Ringbuf
set_cell rb i c = record rb { cells = set rb.cells i c }

-- One access of `push_ringbuf`; `spurious` is the choice of the weak compare-exchange to fail.
-- A compare-exchange that fails is followed by the load of `head`, since `diff` is 0.
unfoldable pub push_move : (spurious : Bool) → Ringbuf → Pushing → Ringbuf × Pc
push_move spurious rb (load_head packet plen) = (rb, pushing (load_seq packet plen rb.head))
push_move spurious rb (load_seq packet plen pos) =
    let diff = sub_u64 (cell_at rb (bit_and pos rb.mask)).seq pos in
    (
      rb,
      if diff == 0
          then pushing (swap_head packet plen pos)
          else (if is_neg64 diff then pushed false else pushing (load_head packet plen)),
    )
push_move true rb (swap_head packet plen pos) = (rb, pushing (load_head packet plen))
push_move false rb (swap_head packet plen pos) =
    if rb.head == pos
    then (record rb { head = u64 (pos + 1) }, pushing (store_packet packet plen pos))
    else (rb, pushing (load_head packet plen))
push_move spurious rb (store_packet packet plen pos) =
    let i = bit_and pos rb.mask in
    (
      set_cell rb i (record (cell_at rb i) { packet = packet }),
      pushing (store_plen packet plen pos),
    )
push_move spurious rb (store_plen packet plen pos) =
    let i = bit_and pos rb.mask in
    (set_cell rb i (record (cell_at rb i) { plen = plen }), pushing (store_seq packet plen pos))
push_move spurious rb (store_seq packet plen pos) =
    let i = bit_and pos rb.mask in
    (set_cell rb i (record (cell_at rb i) { seq = u64 (pos + 1) }), pushed true)

-- One access of `pop_ringbuf`.
unfoldable pub pop_move : (spurious : Bool) → Ringbuf → Popping → Ringbuf × Pc
pop_move spurious rb load_tail = (rb, popping (check_seq rb.tail))
pop_move spurious rb (check_seq pos) =
    let diff = sub_u64 (cell_at rb (bit_and pos rb.mask)).seq (u64 (pos + 1)) in
    (
      rb,
      if diff == 0
          then popping (swap_tail pos)
          else (if is_neg64 diff then popped none else popping load_tail),
    )
pop_move true rb (swap_tail pos) = (rb, popping load_tail)
pop_move false rb (swap_tail pos) =
    if rb.tail == pos
    then (record rb { tail = u64 (pos + 1) }, popping (release pos))
    else (rb, popping load_tail)
pop_move spurious rb (release pos) =
    let i = bit_and pos rb.mask in
    (set_cell rb i (record (cell_at rb i) { seq = u64 (pos + rb.mask + 1) }), popped (some i))

-- The threads and the ring that they share. `log` is no part of the code: it notes the packet and
-- the length of the push that took a position.
pub record System : Type 0 where
  pub ring : Ringbuf
  pub pc : ℕ → Pc
  pub log : ℕ → ℕ × ℕ

abbrev pub update {ℓ} : {A : Type ℓ} → (ℕ → A) → ℕ → A → ℕ → A
update f i a j = if i == j then a else f j

abbrev pub note : Pc → (ℕ → ℕ × ℕ) → ℕ → ℕ × ℕ
note (pushing (store_packet packet plen pos)) log = update log pos (packet, plen)
note _ log = log

-- What happens next: a thread outside the two functions calls one, or a thread makes an access.
pub data Event : Type 0 where
  call_push : (i packet plen : ℕ) → Event
  call_pop : (i : ℕ) → Event
  access : (i : ℕ) (spurious : Bool) → Event

-- A thread that calls is not inside either function.
abbrev pub outside : Pc → Bool
outside (pushing p) = false
outside (popping p) = false
outside _ = true

abbrev pub call : System → ℕ → Pc → System
call s i p = if outside (s.pc i) then record s { pc = update s.pc i p } else s

abbrev pub move : Bool → Ringbuf → Pc → Ringbuf × Pc
move spurious rb (pushing p) = push_move spurious rb p
move spurious rb (popping p) = pop_move spurious rb p
move spurious rb p = (rb, p)

abbrev pub moved : System → ℕ → Ringbuf × Pc → System
moved s i (rb, p) = record { ring = rb; pc = update s.pc i p; log = note p s.log }

unfoldable pub step : System → Event → System
step s (call_push i packet plen) = call s i (pushing (load_head packet plen))
step s (call_pop i) = call s i (popping load_tail)
step s (access i spurious) = moved s i (move spurious s.ring (s.pc i))

-- The threads interleave in any order.
unfoldable pub run : System → List Event → System
run s [] = s
run s (e ∷ es) = run (step s e) es

abbrev pub start : Ringbuf → System
start rb = record { ring = rb; pc = λ _. idle; log = λ _. (0, 0) }

-- The cell to which a thread stores next.
abbrev pub owned_cell : Ringbuf → Pc → Option ℕ
owned_cell rb (pushing (store_packet packet plen pos)) = some (bit_and pos rb.mask)
owned_cell rb (pushing (store_plen packet plen pos)) = some (bit_and pos rb.mask)
owned_cell rb (pushing (store_seq packet plen pos)) = some (bit_and pos rb.mask)
owned_cell rb (popping (release pos)) = some (bit_and pos rb.mask)
owned_cell rb _ = none
