-- ===== src/Ring.antt =====
-- include/ring_buffer.h, src/create_ringbuf.c, src/push_ringbuf.c, src/pop_ringbuf.c: the bounded
-- ring of cells with sequence numbers, one thread at a time. A `packet` pointer is a number with
-- NULL for 0, `head`, `tail` and `seq` are 64-bit words. A loop runs on fuel, and `none` says that
-- the fuel ran out; the compare-exchange, which is the weak one, fails `spurious` times.
pub mod Index
pub mod Inv
pub mod Push
pub mod Pop
pub mod Queue
pub mod Refine
pub mod Allocator
pub mod Threads
mod Tests
use libkpnet.Base.{
  ℕ, zero, suc, ◌+◌, ◌-◌, ◌^◌, bit_and, Bool, true, false, Option, none, some, List, [], ◌∷◌,
  get_or, set, u64, sub_u64, is_neg64, ◌==◌, if◌then◌else◌,
}

-- `ringbuf_cell_t`
pub record Cell : Type 0 where
  pub seq : ℕ
  pub plen : ℕ
  pub packet : ℕ

-- `ringbuf_t`
pub record Ringbuf : Type 0 where
  pub size : ℕ
  pub mask : ℕ
  pub head : ℕ
  pub tail : ℕ
  pub cells : List Cell

-- What an index out of range would read; `Ring.Inv` shows that none is out of range.
abbrev pub no_cell : Cell
no_cell = record { seq = 0; plen = 0; packet = 0 }

-- `&rb->cells[pos & rb->mask]`
abbrev pub cell_at : Ringbuf → ℕ → Cell
cell_at rb i = get_or rb.cells i no_cell

-- The loop of `create_ringbuf` over the cells from the `i`th on.
unfoldable pub init_cells : ℕ → List Cell → List Cell
init_cells i [] = []
init_cells i (c ∷ cs) = record c { seq = i; packet = 0 } ∷ init_cells (suc i) cs

-- `handle` says whether the first `malloc` succeeds, `raw` is the array that the second returns.
unfoldable pub create_ringbuf : (handle : Bool) (raw : Option (List Cell)) → ℕ → Option Ringbuf
create_ringbuf false raw size = none
create_ringbuf true none size = none
create_ringbuf true (some raw) size =
    some
      (record { size = size; mask = sub_u64 size 1; head = 0; tail = 0; cells = init_cells 0 raw })

-- The loop of `push_ringbuf`: `some none` is `return -1`, `some (some pos)` is the `break`.
pub push_loop : (fuel spurious : ℕ) → Ringbuf → ℕ → Option (Option ℕ)
push_loop zero spurious rb pos = none
push_loop (suc fuel) spurious rb pos =
    let diff = sub_u64 (cell_at rb (bit_and pos rb.mask)).seq pos in
    let again = push_loop fuel (spurious - 1) rb rb.head in
    if diff == 0
    then (if spurious == 0 then some (some pos) else again)
    else (if is_neg64 diff then some none else again)

-- The state after the `break`: `head` is advanced, the cell filled, its `seq` stored.
unfoldable pub push_at : Ringbuf → ℕ → (packet plen : ℕ) → Ringbuf
push_at rb pos packet plen = record rb {
  head = u64 (pos + 1);
  cells =
      set rb.cells (bit_and pos rb.mask)
        (record { seq = u64 (pos + 1); plen = plen; packet = packet });
}

-- The result is true for 0 and false for -1.
pub push_ringbuf : (spurious : ℕ) → Ringbuf → (packet plen : ℕ) → Option (Bool × Ringbuf)
push_ringbuf spurious rb packet plen = elim (push_loop (suc spurious) spurious rb rb.head) [
  | none ↦ none
  | some none ↦ some (false, rb)
  | some (some pos) ↦ some (true, push_at rb pos packet plen)
]

-- The loop of `pop_ringbuf`: `some none` is `return NULL`.
unfoldable pub pop_loop : (fuel spurious : ℕ) → Ringbuf → ℕ → Option (Option ℕ)
pop_loop zero spurious rb pos = none
pop_loop (suc fuel) spurious rb pos =
    let diff = sub_u64 (cell_at rb (bit_and pos rb.mask)).seq (u64 (pos + 1)) in
    let again = pop_loop fuel (spurious - 1) rb rb.tail in
    if diff == 0
    then (if spurious == 0 then some (some pos) else again)
    else (if is_neg64 diff then some none else again)

-- The state after the `break`: `tail` is advanced, and the cell released to the producers.
unfoldable pub pop_at : Ringbuf → ℕ → Ringbuf
pop_at rb pos =
    let i = bit_and pos rb.mask in
    record rb {
      tail = u64 (pos + 1);
      cells = set rb.cells i (record (cell_at rb i) { seq = u64 (pos + rb.mask + 1) });
    }

-- The result is the index of the cell that the returned pointer points at.
unfoldable pub pop_ringbuf : (spurious : ℕ) → Ringbuf → Option (Option ℕ × Ringbuf)
pop_ringbuf spurious rb = elim (pop_loop (suc spurious) spurious rb rb.tail) [
  | none ↦ none
  | some none ↦ some (none, rb)
  | some (some pos) ↦ some (some (bit_and pos rb.mask), pop_at rb pos)
]
