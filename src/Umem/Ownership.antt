-- ===== src/Umem/Ownership.antt =====
-- Who owns the chunks: the pool of free chunks with the chunks that are held outside it. Holders
-- pop a chunk and push back one that they hold, in any order.
use libkpnet.Base.{
  ℕ, suc, ◌+◌, ◌*◌, ◌^◌, ◌%◌, ◌≤◌, ◌<◌, ◌≡◌, ◌≢◌, refl, ap, arith, true, false, some, List, [], ◌∷◌,
  length, ◌==◌, count, ◌∈◌, remove, count-append, count-release, length-remove, ne→==,
}
use native.Mathlib.Nat.{mul-mod_left}
use libkpnet.Umem.{
  UmemStack, fill_addrs, create_umem_stack, umem_stack_pop, umem_stack_push, contents, IsStack,
}
use libkpnet.Umem.Lifo.{
  umem_stack_push-IsStack, umem_stack_pop-IsStack, contents-push, contents-pop,
  create_umem_stack-IsStack,
}

pub record Pool : Type 0 where
  pub stack : UmemStack
  pub held : List ℕ

pub data Step : Pool → Pool → Type 0 where
  acquire :
      (p : Pool)
      → p.stack.top ≢ 0
      → Step p (record {
        stack = (umem_stack_pop p.stack).1;
        held = (umem_stack_pop p.stack).0 ∷ p.held;
      })
  release :
      (p : Pool) (a : ℕ)
      → a ∈ p.held
      → Step p (record { stack = umem_stack_push p.stack a; held = remove a p.held })

pub data Reach (s : UmemStack) : Pool → Type 0 where
  start : Reach s (record { stack = s; held = [] })
  later : {p q : Pool} → Reach s p → Step p q → Reach s q

-- Every chunk of `all` is on the stack or held, as often as it stands in `all`.
pub record Owned (all : List ℕ) (p : Pool) : Type 0 where
  pub valid : IsStack p.stack
  pub places : length p.held + p.stack.top ≡ p.stack.cap
  pub each : (a : ℕ) → count a p.held + count a (contents p.stack) ≡ count a all

acquire-Owned :
    (all : List ℕ) (p : Pool)
    → p.stack.top ≢ 0
    → Owned all p
    → Owned all
        (record { stack = (umem_stack_pop p.stack).1; held = (umem_stack_pop p.stack).0 ∷ p.held })
acquire-Owned all p ne o = record {
  valid = umem_stack_pop-IsStack p.stack o.valid;
  places = unfold umem_stack_pop in rw (ne→== p.stack.top 0 ne) (omega (arith, o.places));
  each = λ a. omega (
    arith,
    o.each a,
    ap (count a) (contents-pop p.stack o.valid ne),
    count-append a (contents (umem_stack_pop p.stack).1) ((umem_stack_pop p.stack).0 ∷ []),
  );
}

-- A chunk given back always finds a place: the stack is never full while one is held.
room :
    (all : List ℕ) (p : Pool) (a : ℕ)
    → a ∈ p.held
    → Owned all p
    → (p.stack.top == p.stack.cap) ≡ false
room all p a h o = ne→== p.stack.top p.stack.cap (omega (arith, length-remove a p.held h, o.places))

release-Owned :
    (all : List ℕ) (p : Pool) (a : ℕ)
    → a ∈ p.held
    → Owned all p
    → Owned all (record { stack = umem_stack_push p.stack a; held = remove a p.held })
release-Owned all p a h o = record {
  valid = umem_stack_push-IsStack p.stack a o.valid;
  places =
      unfold umem_stack_push in
      rw (room all p a h o) (omega (arith, o.places, length-remove a p.held h));
  each = λ b.
      rw (contents-push p.stack a o.valid, room all p a h o)
        (omega (
          arith,
          o.each b,
          count-release a b p.held h,
          count-append b (contents p.stack) (a ∷ []),
        ));
}

Reach-Owned :
    {all : List ℕ} {s : UmemStack} {p : Pool}
    → Owned all (record { stack = s; held = [] })
    → Reach s p
    → Owned all p
Reach-Owned o start = o
Reach-Owned {all} o (later r (acquire p ne)) = acquire-Owned all p ne (Reach-Owned o r)
Reach-Owned {all} o (later r (release p a h)) = release-Owned all p a h (Reach-Owned o r)

count-fill_below :
    (a i c : ℕ) (raw : List ℕ)
    → 0 < c
    → (i + length raw) * c ≤ 2 ^ 64
    → a < i * c
    → count a (fill_addrs i c raw) ≡ 0
unfolding fill_addrs
count-fill_below a i c [] pos fits h = refl
count-fill_below a i c (x ∷ raw) pos fits h = ground (arith, count-fill_below a (suc i) c raw pos)

-- The offsets of the chunks are different from each other.
count-fill-le :
    (a i c : ℕ) (raw : List ℕ)
    → 0 < c
    → (i + length raw) * c ≤ 2 ^ 64
    → count a (fill_addrs i c raw) ≤ 1
unfolding fill_addrs
count-fill-le a i c [] pos fits = omega arith
count-fill-le a i c (x ∷ raw) pos fits =
    ground (arith, count-fill-le a (suc i) c raw pos, count-fill_below a (suc i) c raw pos)

abbrev pub IsChunk : (n c a : ℕ) → Type 0
IsChunk n c a = (a % c ≡ 0) × (a + c ≤ n * c)

IsChunk-fill :
    (a i c : ℕ) (raw : List ℕ)
    → 0 < c
    → (i + length raw) * c ≤ 2 ^ 64
    → a ∈ fill_addrs i c raw
    → IsChunk (i + length raw) c a
unfolding fill_addrs
IsChunk-fill a i c [] pos fits h = absurd (omega arith)
IsChunk-fill a i c (x ∷ raw) pos fits h =
    ground (arith, IsChunk-fill a (suc i) c raw pos, mul-mod_left i c)

-- From the stack that `create_umem_stack` makes of `n` chunks of `c` bytes, however its chunks are
-- popped and pushed back by those who hold them: no chunk is held twice, none is held and free at
-- once, and a held one is one of the `n` chunks.
pub chunks_owned_once :
    (raw : List ℕ) (n c : ℕ) {s : UmemStack} {p : Pool}
    → 0 < c
    → n * c ≤ 2 ^ 64
    → length raw ≡ n
    → create_umem_stack true (some raw) n c ≡ some s
    → Reach s p
    → (a : ℕ) → (count a p.held + count a (contents p.stack) ≤ 1) × (a ∈ p.held → IsChunk n c a)
chunks_owned_once raw n c {s} {p} pos fits len e r a =
    let (v, full, are) = create_umem_stack-IsStack raw n c len e in
    let fits' : (0 + length raw) * c ≤ 2 ^ 64 = rw len (omega arith) in
    let o : Owned (fill_addrs 0 c raw) p =
      Reach-Owned
        (record { valid = v; places = omega (arith, full); each = λ b. rw are (omega arith) }) r in
    (
      omega (arith, o.each a, count-fill-le a 0 c raw pos fits'),
      λ h.
          let m : a ∈ fill_addrs 0 c raw = omega (arith, o.each a, h) in
          ground (arith, IsChunk-fill a 0 c raw pos fits' m, len),
    )
