-- ===== src/Ring/Allocator.antt =====
-- src/create_allocator.c: a ring that is full of fresh blocks of memory.
use Prim.{Unit}
use libkpnet.Base.{
  ℕ, zero, suc, ◌+◌, ◌^◌, ◌≤◌, ◌<◌, ◌≡◌, ◌≢◌, refl, sym, ap, ◌∙◌, subst, arith, Bool, true, false,
  Option, none, some, List, [], ◌∷◌, ◌++◌, map, length, get_or, length-append, append-nil,
  append_assoc, sub_u64, ◌==◌, if◌then◌else◌, ne→==, ◌-◌, u64, bit_and,
}
use libkpnet.Ring.{Cell, Ringbuf, no_cell, push_ringbuf, pop_ringbuf}
use libkpnet.Ring.Inv.{fresh-IsRing}
use libkpnet.Ring.Queue.{Queue}
use libkpnet.Ring.Refine.{Holds, push_fits}

-- The loop over the cells from the `i`th on: their `seq` is stored, the rest is what `malloc` gave.
unfoldable pub number_cells : ℕ → List Cell → List Cell
number_cells i [] = []
number_cells i (c ∷ cs) = record c { seq = i } ∷ number_cells (suc i) cs

-- The loop that pops the ring empty when a block could not be allocated, on fuel.
abbrev pub drained : (Ringbuf → Option Ringbuf) → Option (Option ℕ × Ringbuf) → Option Ringbuf
drained again none = none
drained again (some (none, rb)) = some rb
drained again (some (some i, rb)) = again rb

pub drain : (fuel : ℕ) → Ringbuf → Option Ringbuf
drain zero rb = none
drain (suc fuel) rb = drained (drain fuel) (pop_ringbuf 0 rb)

-- `memory_size + (CACHELINE_SIZE - 1) & ~(CACHELINE_SIZE - 1)`, where `line` is the size of a cache
-- line that `sysconf` gives.
abbrev pub block_bytes : (line memory_size : ℕ) → ℕ
block_bytes line memory_size =
    bit_and (u64 (memory_size + sub_u64 line 1)) (2 ^ 64 - 1 - sub_u64 line 1)

abbrev pub pushed_block : (Ringbuf → Option Ringbuf) → Option (Bool × Ringbuf) → Option Ringbuf
pushed_block rest none = none
pushed_block rest (some (b, rb)) = rest rb

abbrev pub ready : (memory fuel : ℕ) → Ringbuf → Option Ringbuf
ready memory fuel rb = if memory == 0 then drain fuel rb else some rb

abbrev pub then_push :
    (memory plen : ℕ) → (Ringbuf → Option Ringbuf) → Option Ringbuf → Option Ringbuf
then_push memory plen rest none = none
then_push memory plen rest (some rb) = pushed_block rest (push_ringbuf 0 rb memory plen)

-- The last loop, over what `aligned_alloc` returns in each round. A round without memory empties
-- the ring and then pushes NULL.
pub fill_allocator : (plen : ℕ) (memories : List ℕ) → Ringbuf → Option Ringbuf
fill_allocator plen [] rb = some rb
fill_allocator plen (m ∷ ms) rb =
    then_push m plen (fill_allocator plen ms) (ready m (suc rb.size) rb)

-- The first `none` is NULL, the second a call that does not return. `memory_num` is the number of
-- blocks asked for.
unfoldable pub create_allocator :
    (line : ℕ) (handle : Bool) (raw : Option (List Cell)) (memories : List ℕ)
    (memory_size memory_num : ℕ)
    → Option (Option Ringbuf)
create_allocator line false raw ms bytes n = none
create_allocator line true none ms bytes n = none
create_allocator line true (some raw) ms bytes n = some (
    fill_allocator (block_bytes line bytes) ms
      (record { size = n; mask = sub_u64 n 1; head = 0; tail = 0; cells = number_cells 0 raw }))

seq-number_cells :
    (i j : ℕ) (raw : List Cell)
    → j < length raw
    → (get_or (number_cells i raw) j no_cell).seq ≡ i + j
unfolding number_cells
seq-number_cells i j [] h = elim h [ ]
seq-number_cells i zero (c ∷ cs) h = omega arith
seq-number_cells i (suc j) (c ∷ cs) h = omega (arith, seq-number_cells (suc i) j cs (omega arith))

length-number_cells : (i : ℕ) (raw : List Cell) → length (number_cells i raw) ≡ length raw
unfolding number_cells
length-number_cells i [] = refl
length-number_cells i (c ∷ cs) = ap suc (length-number_cells (suc i) cs)

-- Every block is there.
abbrev pub AllThere : List ℕ → Type 0
AllThere [] = Unit
AllThere (m ∷ ms) = (m ≢ 0) × AllThere ms

abbrev pub blocks : (plen : ℕ) → List ℕ → Queue
blocks plen ms = map (λ m. (m, plen)) ms

fill_allocator-Holds :
    {k : ℕ} (plen : ℕ) (ms : List ℕ) (q : Queue) (rb : Ringbuf)
    → AllThere ms
    → length q + length ms ≤ 2 ^ k
    → Holds k q rb
    → (rb' : Ringbuf) × (fill_allocator plen ms rb ≡ some rb') × Holds k (q ++ blocks plen ms) rb'
unfolding fill_allocator
fill_allocator-Holds {k} plen [] q rb there room h =
    (rb, refl, subst (λ q. Holds k q rb) (sym (append-nil q)) h)
fill_allocator-Holds {k} plen (m ∷ ms) q rb (nz, there) room h =
    let (rb₁, e, h₁) = push_fits 0 m plen h (omega arith) in
    let (rb', run, h') =
      fill_allocator-Holds plen ms (q ++ (m, plen) ∷ []) rb₁ there
        (omega (arith, length-append q ((m, plen) ∷ []))) h₁ in
    (
      rb',
      rw (ne→== m 0 nz) (rw e run),
      subst (λ q. Holds k q rb') (append_assoc q ((m, plen) ∷ []) (blocks plen ms)) h',
    )

pub create_allocator-Holds :
    (line k : ℕ) (raw : List Cell) (memories : List ℕ) (memory_size : ℕ)
    → 1 ≤ k
    → k ≤ 63
    → length raw ≡ 2 ^ k
    → length memories ≡ 2 ^ k
    → AllThere memories
    → (rb : Ringbuf) × (create_allocator line true (some raw) memories memory_size (2 ^ k)
        ≡ some (some rb))
      × Holds k (blocks (block_bytes line memory_size) memories) rb
unfolding create_allocator
create_allocator-Holds line k raw ms bytes lo hi len all there =
    let fresh =
      fresh-IsRing k (number_cells 0 raw) lo hi (length-number_cells 0 raw ∙ len) (λ j h.
        seq-number_cells 0 j raw (omega (arith, length-number_cells 0 raw)) ∙ omega arith) in
    let (rb, e, h) =
      fill_allocator-Holds (block_bytes line bytes) ms [] _ there (omega (arith, all))
        (record { t = 0; n = 0; valid = fresh; contents = refl }) in
    (rb, ap some e, h)
