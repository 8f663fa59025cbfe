-- ===== src/Umem/Slab/Safety.antt =====
-- What the callers of the slab allocator may rely on.
use libkpnet.Base.{
  ℕ, ◌%◌, ◌≤◌, ◌<◌, ◌≡◌, ◌≢◌, refl, arith, ◌⊎◌, inl, inr, List, [], ◌∷◌, leb, count, ◌∈◌, remove,
  Bool-cases, eq→==, ne→==, ℕ_discrete, leb→le,
}
use libkpnet.Umem.{UmemStack, no_addr, umem_stack_pop, contents}
use libkpnet.Umem.Lifo.{umem_stack_pop-empty}
use libkpnet.Umem.Slab.{Slab, block_bytes, update, refill, slab_alloc_64b, slab_free_64b}
use libkpnet.Umem.Slab.Inv.{Apart, IsChunks, IsSlab, popped_chunk}
use libkpnet.Umem.Slab.Alloc.{reuse-IsSlab, carve-IsSlab, refill-IsSlab, free-IsSlab, Chain-update}

-- NULL comes back only where no block is left anywhere, and then nothing changes; otherwise the
-- block is a new one for the caller to hold.
abbrev pub Allocated : (base : ℕ) → Slab → (held free : List ℕ) → ℕ × Slab → Type 0
Allocated base a held free (p, a') =
    ((p ≡ 0) × (a' ≡ a) × (free ≡ []) × (a.cur_end ≤ a.cur_pos) × (contents a.stack ≡ []))
    ⊎ ((p ≢ 0) × (count p held ≡ 0) × (free' : List ℕ) × IsSlab base a' (p ∷ held) free')

fresh :
    {base : ℕ} {held : List ℕ} {b : Slab} {p : ℕ} {free : List ℕ}
    → IsSlab base b (p ∷ held) free
    → (p ≢ 0) × (count p held ≡ 0) × (free' : List ℕ) × IsSlab base b (p ∷ held) free'
fresh {p = p} {free} v = (v.not_null p (ground arith), ground (arith, v.once p), free, v)

module _ {base : ℕ} {a : Slab} {held : List ℕ} where
  refill-Allocated :
      IsSlab base a held []
      → a.cur_end ≤ a.cur_pos
      → Allocated base a held [] (refill base a (umem_stack_pop a.stack))
  refill-Allocated v used = elim (ℕ_discrete a.stack.top 0) [
    | yes e ↦
        let (same, none_left) = umem_stack_pop-empty a.stack e in
        rw same (inl (refl, refl, refl, used, none_left))
    | no ne ↦
        let top = (popped_chunk a.stack v.chunks ne).0 in
        rw
          (ne→== (umem_stack_pop a.stack).0 no_addr
            (ground (arith, v.chunks.aligned (umem_stack_pop a.stack).0 top)))
          (inr (fresh (refill-IsSlab v used ne)))
  ]

  -- `slab_alloc_64b` on a valid allocator: it returns NULL only where the free list, the current
  -- chunk and the stack of chunks are all exhausted, and then nothing has changed; else the block
  -- is one that nobody holds, and the allocator is valid with that block held.
  pub slab_alloc_64b-IsSlab :
      (free : List ℕ) → IsSlab base a held free → Allocated base a held free (slab_alloc_64b base a)
  unfolding slab_alloc_64b
  slab_alloc_64b-IsSlab [] v =
      rw (eq→== a.free_list 0 v.chain) (elim (Bool-cases (leb a.cur_end a.cur_pos)) [
        | inl used ↦ rw used (refill-Allocated v (leb→le _ _ used))
        | inr left ↦ rw left (inr (fresh (carve-IsSlab v (ground arith))))
      ])
  slab_alloc_64b-IsSlab (x ∷ xs) v =
      rw (ne→== a.free_list 0 v.chain.1) (inr (fresh (reuse-IsSlab x xs v)))

-- The allocator with the blocks that its callers hold.
pub record Blocks : Type 0 where
  pub slab : Slab
  pub held : List ℕ

-- A caller allocates, gives back a block that it holds, or writes to blocks that it holds.
pub data Step (base : ℕ) : Blocks → Blocks → Type 0 where
  alloc :
      (b : Blocks)
      → (slab_alloc_64b base b.slab).0 ≢ 0
      → Step base b (record {
        slab = (slab_alloc_64b base b.slab).1;
        held = (slab_alloc_64b base b.slab).0 ∷ b.held;
      })
  give :
      (b : Blocks) (x : ℕ)
      → x ∈ b.held
      → Step base b (record { slab = slab_free_64b b.slab x; held = remove x b.held })
  write :
      (b : Blocks) (x v : ℕ)
      → x ∈ b.held
      → Step base b (record b { slab = record (b.slab) { mem = update b.slab.mem x v } })

-- The state that `kpnet_env_init` leaves the allocator in.
abbrev pub empty_slab : UmemStack → (ℕ → ℕ) → Slab
empty_slab s m = record { free_list = 0; stack = s; cur_pos = 0; cur_end = 0; mem = m }

pub data Reach (base : ℕ) (s : UmemStack) (m : ℕ → ℕ) : Blocks → Type 0 where
  start : Reach base s m (record { slab = empty_slab s m; held = [] })
  later : {b c : Blocks} → Reach base s m b → Step base b c → Reach base s m c

abbrev Invariant : ℕ → Blocks → Type 0
Invariant base b = (free : List ℕ) × IsSlab base b.slab b.held free

pub empty-Invariant :
    (base : ℕ) (s : UmemStack) (m : ℕ → ℕ)
    → IsChunks s
    → 0 < base
    → base % block_bytes ≡ 0
    → IsSlab base (empty_slab s m) [] []
empty-Invariant base s m v pos al = record {
  chunks = v;
  base_pos = pos;
  base_aligned = al;
  pos_aligned = refl;
  end_aligned = refl;
  chain = refl;
  once = λ x. omega arith;
  not_null = λ x h. absurd (omega arith);
  aligned = λ x h. absurd (omega arith);
  current = λ x h. absurd (omega arith);
  stacked = λ x c h i. absurd (omega arith);
  apart = λ c i. inl (omega arith);
  pos_null = λ e. refl;
}

write-IsSlab :
    {base : ℕ} {a : Slab} {held : List ℕ} (x v : ℕ) (free : List ℕ)
    → x ∈ held
    → IsSlab base a held free
    → IsSlab base (record a { mem = update a.mem x v }) held free
write-IsSlab {base} {a} {held} x v free h i = record {
  chunks = i.chunks;
  base_pos = i.base_pos;
  base_aligned = i.base_aligned;
  pos_aligned = i.pos_aligned;
  end_aligned = i.end_aligned;
  chain = Chain-update a.free_list x v free a.mem (omega (arith, i.once x)) i.chain;
  once = i.once;
  not_null = i.not_null;
  aligned = i.aligned;
  current = i.current;
  stacked = i.stacked;
  apart = i.apart;
  pos_null = i.pos_null;
}

Step-Invariant : {base : ℕ} {b c : Blocks} → Step base b c → Invariant base b → Invariant base c
Step-Invariant (alloc b ne) (free, v) = elim (slab_alloc_64b-IsSlab free v) [
  | inl (e, _, _, _, _) ↦ absurd (ne e)
  | inr (e, n, free', v') ↦ (free', v')
]
Step-Invariant (give b x h) (free, v) = (x ∷ free, free-IsSlab x free h v)
Step-Invariant (write b x w h) (free, v) = (free, write-IsSlab x w free h v)

Reach-Invariant :
    {base : ℕ} {s : UmemStack} {m : ℕ → ℕ} {b : Blocks}
    → IsSlab base (empty_slab s m) [] []
    → Reach base s m b
    → Invariant base b
Reach-Invariant v start = ([], v)
Reach-Invariant v (later r st) = Step-Invariant st (Reach-Invariant v r)

-- However blocks are allocated, given back and written to, from a UMEM that is not at NULL and
-- aligned to a block: no block is held twice, every held block is aligned to 64 bytes, and two
-- different ones have no byte in common.
pub blocks_disjoint :
    {base : ℕ} {s : UmemStack} {m : ℕ → ℕ} {b : Blocks}
    → IsChunks s
    → 0 < base
    → base % block_bytes ≡ 0
    → Reach base s m b
    → (x y : ℕ) → x ∈ b.held
    → y ∈ b.held
    → (count x b.held ≡ 1) × (x % block_bytes ≡ 0) × (x ≢ y → Apart x block_bytes y block_bytes)
blocks_disjoint {base} {s} {m} {b} v pos al r x y hx hy =
    let (free, i) = Reach-Invariant (empty-Invariant base s m v pos al) r in
    (
      omega (arith, i.once x),
      i.aligned x (omega arith),
      λ ne. ground (arith, i.aligned x, i.aligned y),
    )
