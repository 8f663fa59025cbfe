-- ===== src/Xdp/Fill.antt =====
-- `xdp_fill` hands free chunks of the UMEM stack to the kernel.
use libkpnet.Base.{
  ℕ, zero, suc, ◌+◌, ◌-◌, ◌≤◌, ◌<◌, ◌≡◌, ◌≢◌, refl, sym, ap, ◌∙◌, arith, min, List, [], ◌∷◌, ◌++◌,
  length, u32, ltb, ◌==◌, if◌then◌else◌, ℕ_discrete, eq→==, ne→==, count, count-append, append-nil,
  set, subst,
}
use libkpnet.Umem.{UmemStack, no_addr, umem_stack_pop, contents as free_chunks, IsStack}
use libkpnet.Umem.Lifo.{umem_stack_pop-empty, umem_stack_pop-IsStack, contents-pop}
use libkpnet.Xdp.{Xdp, ring_size, slot, write_slots, free_slots, fill_loop, xdp_fill}
use libkpnet.Xdp.Window.{IsXdpRing, used, contents}
use libkpnet.Xdp.Produce.{produce, contents-produce, produce-IsXdpRing}

-- No chunk has the address that stands for an empty stack.
abbrev pub NoSentinel : UmemStack → Type 0
NoSentinel s = count no_addr (free_chunks s) ≡ 0

-- The loop took the chunks `xs` off the stack, the top one first, and wrote them from its start
-- on; it stopped early only because the stack was empty.
pub record Filled (left i prod : ℕ) (s : UmemStack) (slots : List ℕ) (r : ℕ × UmemStack × List ℕ)
    : Type 0 where
  pub xs : List ℕ
  pub moved : r.0 ≡ i + length xs
  pub bound : length xs ≤ left
  pub drained : length xs < left → free_chunks r.1 ≡ []
  pub written : r.2 ≡ write_slots slots prod i xs
  pub kept : (a : ℕ) → count a (free_chunks s) ≡ count a xs + count a (free_chunks r.1)
  pub valid : IsStack r.1

top_ne : (s : UmemStack) → IsStack s → NoSentinel s → s.top ≢ 0 → (umem_stack_pop s).0 ≢ no_addr
top_ne s v out ne e = ground (
  arith,
  ap (count no_addr) (contents-pop s v ne),
  count-append no_addr (free_chunks (umem_stack_pop s).1) ((umem_stack_pop s).0 ∷ []),
)

fill_loop-Filled :
    (left i prod : ℕ) (s : UmemStack) (slots : List ℕ)
    → IsStack s
    → NoSentinel s
    → Filled left i prod s slots (fill_loop left i prod s slots)
unfolding fill_loop write_slots
fill_loop-Filled zero i prod s slots v out = record {
  xs = [];
  moved = omega arith;
  bound = omega arith;
  drained = λ h. absurd (omega arith);
  written = refl;
  kept = λ a. omega arith;
  valid = v;
}
fill_loop-Filled (suc left) i prod s slots v out = elim (ℕ_discrete s.top 0) [
  | yes e ↦
      let (same, empty) = umem_stack_pop-empty s e in
      rw (eq→== (umem_stack_pop s).0 no_addr (ap (λ r. r.0) same)) (record {
        xs = [];
        moved = omega arith;
        bound = omega arith;
        drained = λ h. ap (λ r. free_chunks r.1) same ∙ empty;
        written = refl;
        kept = λ b. ap (λ r. count b (free_chunks r.1)) (sym same) ∙ omega arith;
        valid = umem_stack_pop-IsStack s v;
      })
  | no ne ↦
      let a = (umem_stack_pop s).0 in
      let s' = (umem_stack_pop s).1 in
      let split =
        λ (b : ℕ). ap (count b) (contents-pop s v ne) ∙ count-append b (free_chunks s') (a ∷ []) in
      let f =
        fill_loop-Filled left (suc i) prod s' (set slots (slot prod i) a)
          (umem_stack_pop-IsStack s v) (omega (arith, split no_addr, out)) in
      rw (ne→== a no_addr (top_ne s v out ne)) (record {
        xs = a ∷ f.xs;
        moved = omega (arith, f.moved);
        bound = omega (arith, f.bound);
        drained = λ h. f.drained (omega arith);
        written = f.written;
        kept = λ b. omega (arith, split b, f.kept b);
        valid = f.valid;
      })
]

-- The chunks `xs` moved from the stack to the end of the fill ring.
abbrev pub Refilled : Xdp → UmemStack → ℕ → ℕ × UmemStack × Xdp → Type 0
Refilled x s max_n (n, s', x') =
    (xs : List ℕ) × (n ≡ length xs)
    × (n ≤ min max_n (ring_size - used x.fill))
    × (n < min max_n (ring_size - used x.fill) → free_chunks s' ≡ [])
    × (contents 0 x'.fill ≡ contents 0 x.fill ++ xs)
    × ((a : ℕ) → count a (free_chunks s) ≡ count a xs + count a (free_chunks s'))
    × IsXdpRing x'.fill
    × IsStack s'

module _ (x : Xdp) (s : UmemStack) (max_n : ℕ) (v : IsXdpRing x.fill) (st : IsStack s)
    (out : NoSentinel s) where
  abbrev filled : ℕ → UmemStack → List ℕ → ℕ × UmemStack × Xdp
  filled n s' slots = (
    n,
    s',
    record x {
      fill = record (x.fill) {
        slots = slots;
        producer = if n == 0 then x.fill.producer else u32 (x.fill.producer + n);
      };
    },
  )

  refill :
      (want : ℕ) {r : ℕ × UmemStack × List ℕ}
      → want ≡ min max_n (ring_size - used x.fill)
      → Filled want 0 x.fill.producer s x.fill.slots r
      → Refilled x s max_n (filled r.0 r.1 r.2)
  refill want {r} e f =
      let fits : used x.fill + length f.xs ≤ ring_size = omega (arith, f.bound, v.ahead) in
      let same : (filled r.0 r.1 r.2).2.fill ≡ produce x.fill f.xs (length f.xs) =
        ground (arith, f.moved, f.written, v.prod_word) in
      (
        f.xs,
        omega (arith, f.moved),
        omega (arith, f.moved, f.bound),
        λ h. f.drained (omega (arith, f.moved)),
        ap (contents 0) same ∙ contents-produce 0 x.fill f.xs v fits,
        f.kept,
        subst IsXdpRing (sym same) (produce-IsXdpRing 0 x.fill f.xs v fits),
        f.valid,
      )

  refill_none :
      (want : ℕ)
      → want ≡ min max_n (ring_size - used x.fill)
      → want ≡ 0
      → Refilled x s max_n (0, s, x)
  refill_none want e z = (
    [],
    refl,
    omega arith,
    λ h. absurd (omega arith),
    sym (append-nil _),
    λ a. omega arith,
    v,
    st,
  )

  -- `xdp_fill` moves chunks from the UMEM stack to the end of the fill ring and returns how many:
  -- as many as were asked for and fit the ring, unless the stack ran empty. No chunk is lost or
  -- doubled, and the ring does not overflow.
  pub xdp_fill-Refilled : Refilled x s max_n (xdp_fill x s max_n)
  unfolding xdp_fill
  xdp_fill-Refilled =
      let want = if ltb (free_slots x.fill) max_n then free_slots x.fill else max_n in
      let e : want ≡ min max_n (ring_size - used x.fill) = ground (arith, v.ahead) in
      elim (ℕ_discrete want 0) [
        | yes z ↦ rw (eq→== want 0 z) (refill_none want e z)
        | no ne ↦
            rw (ne→== want 0 ne)
              (refill want e (fill_loop-Filled want 0 x.fill.producer s x.fill.slots st out))
      ]
