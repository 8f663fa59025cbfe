-- ===== src/Umem/Slab.antt =====
-- src/slab_alloc_64b.c, src/slab_free_64b.c: blocks of 64 bytes cut from the chunks of the UMEM
-- stack, with the free blocks in a list that runs through their own first words. An address is a
-- number, NULL is 0, and `mem` is the 64-bit word at an address. The UMEM lies in the address
-- space, so no address wraps.
pub mod Inv
pub mod Alloc
pub mod Safety
use libkpnet.Base.{ℕ, ◌+◌, Bool, true, false, ◌==◌, leb, if◌then◌else◌}
use libkpnet.Umem.{UmemStack, no_addr, umem_stack_pop}

-- `umem_slab_allocator_t`, with the memory that its free list runs through.
pub record Slab : Type 0 where
  pub free_list : ℕ
  pub stack : UmemStack
  pub cur_pos : ℕ
  pub cur_end : ℕ
  pub mem : ℕ → ℕ

abbrev pub chunk_bytes : ℕ
chunk_bytes = 4096

abbrev pub block_bytes : ℕ
block_bytes = 64

abbrev pub update : (ℕ → ℕ) → ℕ → ℕ → ℕ → ℕ
update m p v q = if p == q then v else m q

-- The block at `cur_pos`.
abbrev pub carve : Slab → ℕ × Slab
carve a = (a.cur_pos, record a { cur_pos = a.cur_pos + block_bytes })

-- A new chunk at `offset`, of which the first block is taken.
abbrev pub refill : ℕ → Slab → ℕ × UmemStack → ℕ × Slab
refill umem_base a (offset, rest) =
    if offset == no_addr
    then (0, record a { stack = rest })
    else carve (record a {
      stack = rest;
      cur_pos = umem_base + offset;
      cur_end = umem_base + offset + chunk_bytes;
    })

unfoldable pub slab_alloc_64b : ℕ → Slab → ℕ × Slab
slab_alloc_64b umem_base a =
    if a.free_list == 0
    then (if leb a.cur_end a.cur_pos then refill umem_base a (umem_stack_pop a.stack) else carve a)
    else (a.free_list, record a { free_list = a.mem a.free_list })

pub slab_free_64b : Slab → ℕ → Slab
slab_free_64b a ptr = record a { mem = update a.mem ptr a.free_list; free_list = ptr }
