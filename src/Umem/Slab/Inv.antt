-- ===== src/Umem/Slab/Inv.antt =====
-- The invariant of the slab allocator together with the blocks that its callers hold.
use libkpnet.Base.{
  ℕ, ◌+◌, ◌%◌, ◌≤◌, ◌<◌, ◌≡◌, ◌≢◌, ap, ◌∙◌, arith, ◌⊎◌, List, [], ◌∷◌, count, ◌∈◌, count-append,
}
use libkpnet.Umem.{UmemStack, umem_stack_pop, contents, IsStack}
use libkpnet.Umem.Lifo.{umem_stack_pop-IsStack, contents-pop}
use libkpnet.Umem.Slab.{Slab, chunk_bytes, block_bytes}

-- The free list from `p` on runs through the blocks `xs` and ends in NULL.
abbrev pub Chain : (ℕ → ℕ) → ℕ → List ℕ → Type 0
Chain m p [] = p ≡ 0
Chain m p (x ∷ xs) = (p ≡ x) × (p ≢ 0) × Chain m (m p) xs

-- The first ranges of `m` and `n` bytes from `x` and `y` on have no byte in common.
abbrev pub Apart : (x m y n : ℕ) → Type 0
Apart x m y n = (x + m ≤ y) ⊎ (y + n ≤ x)

-- What the UMEM stack gives: distinct chunks, aligned to their size.
pub record IsChunks (s : UmemStack) : Type 0 where
  pub valid : IsStack s
  pub once : (a : ℕ) → count a (contents s) ≤ 1
  pub aligned : (a : ℕ) → a ∈ contents s → a % chunk_bytes ≡ 0

-- `held` are the blocks given out, `free` those of the free list.
pub record IsSlab (base : ℕ) (a : Slab) (held free : List ℕ) : Type 0 where
  pub chunks : IsChunks a.stack
  pub base_pos : 0 < base
  pub base_aligned : base % block_bytes ≡ 0
  pub pos_aligned : a.cur_pos % block_bytes ≡ 0
  pub end_aligned : a.cur_end % block_bytes ≡ 0
  pub chain : Chain a.mem a.free_list free
  pub once : (x : ℕ) → count x held + count x free ≤ 1
  pub not_null : (x : ℕ) → 0 < count x held + count x free → x ≢ 0
  pub aligned : (x : ℕ) → 0 < count x held + count x free → x % block_bytes ≡ 0
  -- the unused part of the current chunk holds no block
  pub current : (x : ℕ) → 0 < count x held + count x free → (x < a.cur_pos) ⊎ (a.cur_end ≤ x)
  -- nor does any chunk of the stack
  pub stacked :
      (x c : ℕ)
      → 0 < count x held + count x free
      → c ∈ contents a.stack
      → Apart x block_bytes (base + c) chunk_bytes
  -- and the current chunk is none of those on the stack
  pub apart :
      (c : ℕ) → c ∈ contents a.stack → (a.cur_end ≤ base + c) ⊎ (base + c + chunk_bytes ≤ a.cur_pos)
  pub pos_null : a.cur_pos ≡ 0 → a.cur_end ≡ 0

count-pop :
    (s : UmemStack) (c : ℕ)
    → IsStack s
    → s.top ≢ 0
    → count c (contents s)
      ≡ count c (contents (umem_stack_pop s).1) + count c ((umem_stack_pop s).0 ∷ [])
count-pop s c v ne =
    ap (count c) (contents-pop s v ne)
    ∙ count-append c (contents (umem_stack_pop s).1) ((umem_stack_pop s).0 ∷ [])

pub IsChunks-pop : (s : UmemStack) → IsChunks s → s.top ≢ 0 → IsChunks (umem_stack_pop s).1
IsChunks-pop s v ne = record {
  valid = umem_stack_pop-IsStack s v.valid;
  once = λ c. omega (arith, v.once c, count-pop s c v.valid ne);
  aligned = λ c h. v.aligned c (omega (arith, count-pop s c v.valid ne, h));
}

-- The chunk that a pop takes off, and that it is not one of the rest.
pub popped_chunk :
    (s : UmemStack)
    → IsChunks s
    → s.top ≢ 0
    → ((umem_stack_pop s).0 ∈ contents s)
      × ((c : ℕ)
          → c ∈ contents (umem_stack_pop s).1
          → (c ∈ contents s) × Apart c chunk_bytes (umem_stack_pop s).0 chunk_bytes)
popped_chunk s v ne =
    let a = (umem_stack_pop s).0 in
    let top : a ∈ contents s = ground (arith, count-pop s a v.valid ne) in
    (
      top,
      λ c h.
          let below : c ∈ contents s = omega (arith, count-pop s c v.valid ne, h) in
          let ne : c ≢ a = ground (arith, count-pop s c v.valid ne, v.once c) in
          (below, ground (arith, v.aligned c below, v.aligned a top)),
    )
