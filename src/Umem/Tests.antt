-- ===== src/Umem/Tests.antt =====
-- A UMEM of two chunks.
use libkpnet.Base.{ℕ, ◌+◌, ◌%◌, ◌≤◌, ◌≡◌, ◌≢◌, refl, arith, true, some, [], ◌∷◌, count, ◌∈◌}
use libkpnet.Umem.{UmemStack, create_umem_stack, umem_stack_pop, contents, fill_addrs}
use libkpnet.Umem.Ownership.{Pool, acquire, Reach, start, later, chunks_owned_once, IsChunk}
use libkpnet.Umem.Slab.{Slab, block_bytes, slab_alloc_64b}
use libkpnet.Umem.Slab.Inv.{IsChunks, Apart}
use libkpnet.Umem.Slab.Safety
use libkpnet.Umem.Slab.Safety.{
  Allocated, slab_alloc_64b-IsSlab, Blocks, alloc, give, write, empty_slab, blocks_disjoint,
  empty-Invariant,
}

abbrev two_chunks : UmemStack
two_chunks = record { addrs = 0 ∷ 4096 ∷ []; top = 2; cap = 2 }

made : create_umem_stack true (some (7 ∷ 7 ∷ [])) 2 4096 ≡ some two_chunks
unfolding create_umem_stack fill_addrs
made = refl

abbrev begin : Pool
begin = record { stack = two_chunks; held = [] }

abbrev one_held : Pool
one_held = record { stack = record { addrs = 0 ∷ 4096 ∷ []; top = 1; cap = 2 }; held = 4096 ∷ [] }

one_held-Reach : Reach two_chunks one_held
unfolding umem_stack_pop
one_held-Reach = later start (acquire begin (omega arith))

chunks_owned_once_example :
    (count 4096 one_held.held + count 4096 (contents one_held.stack) ≤ 1)
    × (4096 ∈ one_held.held → IsChunk 2 4096 4096)
chunks_owned_once_example =
    chunks_owned_once (7 ∷ 7 ∷ []) 2 4096 (omega arith) (omega arith) refl made one_held-Reach 4096

two_chunks-IsChunks : IsChunks two_chunks
two_chunks-IsChunks = record {
  valid = record { within = omega arith; storage = refl };
  once = λ a. ground arith;
  aligned = λ a h. ground arith;
}

abbrev none_used : Slab
none_used = empty_slab two_chunks (λ p. 0)

slab_alloc_64b-IsSlab_example : Allocated 65536 none_used [] [] (slab_alloc_64b 65536 none_used)
slab_alloc_64b-IsSlab_example =
    slab_alloc_64b-IsSlab []
      (empty-Invariant 65536 two_chunks (λ p. 0) two_chunks-IsChunks (omega arith) refl)

abbrev no_blocks : Blocks
no_blocks = record { slab = none_used; held = [] }

abbrev first_chunk : UmemStack
first_chunk = record { addrs = 0 ∷ 4096 ∷ []; top = 1; cap = 2 }

abbrev cut : ℕ → Slab
cut pos = record {
  free_list = 0;
  stack = first_chunk;
  cur_pos = pos;
  cur_end = 73728;
  mem = λ p. 0;
}

abbrev two_blocks : Blocks
two_blocks = record { slab = cut 69760; held = 69696 ∷ 69632 ∷ [] }

two_blocks-Reach : Safety.Reach 65536 two_chunks (λ p. 0) two_blocks
unfolding slab_alloc_64b umem_stack_pop
two_blocks-Reach =
    Safety.later (Safety.later Safety.start (alloc no_blocks (omega arith)))
      (alloc (record { slab = cut 69696; held = 69632 ∷ [] }) (omega arith))

blocks_disjoint_example :
    (count 69696 two_blocks.held ≡ 1)
    × (69696 % block_bytes ≡ 0)
    × (◌≢◌ {A = ℕ} 69696 69632 → Apart 69696 block_bytes 69632 block_bytes)
blocks_disjoint_example =
    blocks_disjoint two_chunks-IsChunks (omega arith) refl two_blocks-Reach 69696 69632
      (omega arith) (omega arith)
