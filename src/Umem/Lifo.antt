-- ===== src/Umem/Lifo.antt =====
-- The stack is last in, first out, and drops a push only when it is full.
use libkpnet.Base.{
  ℕ, zero, suc, ◌-◌, ◌<◌, ◌≡◌, ◌≢◌, refl, ap, ◌∙◌, arith, true, some, List, [], ◌∷◌, ◌++◌, length,
  get_or, set, take, length-set, ◌==◌, if◌then◌else◌, subst, ne→==,
}
use mathlib.Core.Option.{some-injective}
use libkpnet.Umem.{
  UmemStack, no_addr, fill_addrs, create_umem_stack, umem_stack_pop, umem_stack_push, contents,
  IsStack,
}

take-suc :
    (n : ℕ) (xs : List ℕ) (d : ℕ)
    → n < length xs
    → take (suc n) xs ≡ take n xs ++ (get_or xs n d ∷ [])
take-suc n [] d h = absurd (omega arith)
take-suc zero (x ∷ xs) d h = refl
take-suc (suc n) (x ∷ xs) d h = ap (λ ys. x ∷ ys) (take-suc n xs d (omega arith))

take-set :
    (n : ℕ) (xs : List ℕ) (a : ℕ)
    → n < length xs
    → take (suc n) (set xs n a) ≡ take n xs ++ (a ∷ [])
take-set n [] a h = absurd (omega arith)
take-set zero (x ∷ xs) a h = refl
take-set (suc n) (x ∷ xs) a h = ap (λ ys. x ∷ ys) (take-set n xs a (omega arith))

take_all : (n : ℕ) (xs : List ℕ) → length xs ≡ n → take n xs ≡ xs
take_all zero [] h = refl
take_all zero (x ∷ xs) h = absurd (omega arith)
take_all (suc n) [] h = refl
take_all (suc n) (x ∷ xs) h = ap (λ ys. x ∷ ys) (take_all n xs (omega arith))

pub umem_stack_push-IsStack : (s : UmemStack) (a : ℕ) → IsStack s → IsStack (umem_stack_push s a)
unfolding umem_stack_push
umem_stack_push-IsStack s a v = ground (arith, length-set s.addrs s.top a)

pub umem_stack_pop-IsStack : (s : UmemStack) → IsStack s → IsStack (umem_stack_pop s).1
unfolding umem_stack_pop
umem_stack_pop-IsStack s v = ground arith

-- A push adds the address on top; on a full stack it changes nothing.
pub contents-push :
    (s : UmemStack) (a : ℕ)
    → IsStack s
    → contents (umem_stack_push s a)
      ≡ (if s.top == s.cap then contents s else contents s ++ (a ∷ []))
unfolding umem_stack_push
contents-push s a v = ground (arith, take-set s.top s.addrs a)

-- A pop of an empty stack returns -1 and changes nothing.
pub umem_stack_pop-empty :
    (s : UmemStack) → s.top ≡ 0 → (umem_stack_pop s ≡ (no_addr, s)) × (contents s ≡ [])
unfolding umem_stack_pop
umem_stack_pop-empty s e = (ground arith, ap (λ n. take n s.addrs) e)

-- Any other pop returns the address on top and takes it off.
pub contents-pop :
    (s : UmemStack)
    → IsStack s
    → s.top ≢ 0
    → contents s ≡ contents (umem_stack_pop s).1 ++ ((umem_stack_pop s).0 ∷ [])
unfolding umem_stack_pop
contents-pop s v ne = rw (ne→== s.top 0 ne) (
    ap (λ n. take n s.addrs) {y = suc (s.top - 1)} (omega arith)
    ∙ take-suc (s.top - 1) s.addrs no_addr (omega arith))

length-fill_addrs : (i c : ℕ) (raw : List ℕ) → length (fill_addrs i c raw) ≡ length raw
unfolding fill_addrs
length-fill_addrs i c [] = refl
length-fill_addrs i c (x ∷ raw) = ap suc (length-fill_addrs (suc i) c raw)

-- `create_umem_stack` makes a valid stack that is full of the chunks' offsets.
pub create_umem_stack-IsStack :
    (raw : List ℕ) (n c : ℕ) {s : UmemStack}
    → length raw ≡ n
    → create_umem_stack true (some raw) n c ≡ some s
    → IsStack s × (s.top ≡ s.cap) × (contents s ≡ fill_addrs 0 c raw)
unfolding create_umem_stack
create_umem_stack-IsStack raw n c {s} len e =
    subst (λ t. IsStack t × (t.top ≡ t.cap) × (contents t ≡ fill_addrs 0 c raw))
      (some-injective _ _ e)
      (
        record { within = omega arith; storage = length-fill_addrs 0 c raw ∙ len },
        refl,
        take_all n (fill_addrs 0 c raw) (length-fill_addrs 0 c raw ∙ len),
      )
