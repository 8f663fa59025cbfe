-- ===== src/Umem/Slab/Alloc.antt =====
-- The three ways in which `slab_alloc_64b` finds a block, and `slab_free_64b`.
use libkpnet.Base.{
  ℕ, ◌+◌, ◌≤◌, ◌<◌, ◌≡◌, ◌≢◌, refl, arith, List, [], ◌∷◌, count, ◌∈◌, remove, count-release, subst,
}
use libkpnet.Umem.{umem_stack_pop}
use libkpnet.Umem.Slab.{Slab, chunk_bytes, block_bytes, update, carve, slab_free_64b}
use libkpnet.Umem.Slab.Inv.{Chain, IsSlab, IsChunks-pop, popped_chunk}

-- A write to a block outside the free list leaves the list as it is.
pub Chain-update :
    (p x v : ℕ) (xs : List ℕ) (m : ℕ → ℕ)
    → count x xs ≡ 0
    → Chain m p xs
    → Chain (update m x v) p xs
Chain-update p x v [] m out h = h
Chain-update p x v (y ∷ xs) m out h = (
  h.0,
  h.1,
  subst (λ q. Chain (update m x v) q xs) (ground (arith, h.0))
      (Chain-update (m p) x v xs m (ground arith) h.2),
)

module _ {base : ℕ} {a : Slab} {held : List ℕ} where
  -- The first block of the free list.
  pub reuse-IsSlab :
      (x : ℕ) (xs : List ℕ)
      → IsSlab base a held (x ∷ xs)
      → IsSlab base (record a { free_list = a.mem a.free_list }) (a.free_list ∷ held) xs
  reuse-IsSlab x xs v = record {
    chunks = v.chunks;
    base_pos = v.base_pos;
    base_aligned = v.base_aligned;
    pos_aligned = v.pos_aligned;
    end_aligned = v.end_aligned;
    chain = v.chain.2;
    once = λ y. ground (arith, v.once y, v.chain.0);
    not_null = λ y h. ground (arith, v.not_null y, v.chain.0);
    aligned = λ y h. ground (arith, v.aligned y, v.chain.0);
    current = λ y h. v.current y (ground (arith, v.chain.0));
    stacked = λ y c h i. v.stacked y c (ground (arith, v.chain.0)) i;
    apart = v.apart;
    pos_null = v.pos_null;
  }

  -- The next block of the current chunk.
  pub carve-IsSlab :
      IsSlab base a held [] → a.cur_pos < a.cur_end → IsSlab base (carve a).1 (a.cur_pos ∷ held) []
  carve-IsSlab v room = record {
    chunks = v.chunks;
    base_pos = v.base_pos;
    base_aligned = v.base_aligned;
    pos_aligned = omega (arith, v.pos_aligned);
    end_aligned = v.end_aligned;
    chain = v.chain;
    once = λ y. ground (arith, v.once y, v.current y);
    not_null = λ y h. ground (arith, v.not_null y, v.pos_null);
    aligned = λ y h. ground (arith, v.aligned y, v.pos_aligned);
    current = λ y h. ground (arith, v.current y);
    stacked = λ y c h i. ground (arith, v.stacked y c, v.apart c i, v.pos_aligned, v.end_aligned);
    apart = λ c i. ground (arith, v.apart c i);
    pos_null = λ e. absurd (omega arith);
  }

  -- The first block of a chunk from the stack.
  pub refill-IsSlab :
      IsSlab base a held []
      → a.cur_end ≤ a.cur_pos
      → a.stack.top ≢ 0
      → let c = (umem_stack_pop a.stack).0 in
        IsSlab base
          (record a {
            stack = (umem_stack_pop a.stack).1;
            cur_pos = base + c + block_bytes;
            cur_end = base + c + chunk_bytes;
          })
          ((base + c) ∷ held)
          []
  refill-IsSlab v used ne =
      let c = (umem_stack_pop a.stack).0 in
      let (top, rest) = popped_chunk a.stack v.chunks ne in
      record {
        chunks = IsChunks-pop a.stack v.chunks ne;
        base_pos = v.base_pos;
        base_aligned = v.base_aligned;
        pos_aligned = omega (arith, v.base_aligned, v.chunks.aligned c top);
        end_aligned = omega (arith, v.base_aligned, v.chunks.aligned c top);
        chain = v.chain;
        once = λ y. ground (arith, v.once y, v.stacked y c);
        not_null = λ y h. ground (arith, v.not_null y, v.base_pos);
        aligned = λ y h. ground (arith, v.aligned y, v.base_aligned, v.chunks.aligned c top);
        current = λ y h. ground (arith, v.stacked y c);
        stacked = λ y d h i. ground (arith, v.stacked y d, rest d i);
        apart = λ d i. ground (arith, rest d i);
        pos_null = λ e. absurd (omega arith);
      }

  -- A block given back heads the free list.
  pub free-IsSlab :
      (x : ℕ) (xs : List ℕ)
      → x ∈ held
      → IsSlab base a held xs
      → IsSlab base (slab_free_64b a x) (remove x held) (x ∷ xs)
  unfolding slab_free_64b
  free-IsSlab x xs h v = record {
    chunks = v.chunks;
    base_pos = v.base_pos;
    base_aligned = v.base_aligned;
    pos_aligned = v.pos_aligned;
    end_aligned = v.end_aligned;
    chain = (
      refl,
      v.not_null x (omega arith),
      subst (λ q. Chain (update a.mem x a.free_list) q xs) (ground arith)
          (Chain-update a.free_list x a.free_list xs a.mem (omega (arith, v.once x)) v.chain),
    );
    once = λ y. omega (arith, v.once y, count-release x y held h);
    not_null = λ y p. v.not_null y (omega (arith, count-release x y held h));
    aligned = λ y p. v.aligned y (omega (arith, count-release x y held h));
    current = λ y p. v.current y (omega (arith, count-release x y held h));
    stacked = λ y c p i. v.stacked y c (omega (arith, count-release x y held h)) i;
    apart = v.apart;
    pos_null = v.pos_null;
  }
