-- ===== src/Umem.antt =====
-- include/xdp.h, src/create_umem_stack.c, src/umem_stack_pop.c, src/umem_stack_push.c: the stack of
-- the free chunks of the UMEM, by their offsets.
pub mod Lifo
pub mod Ownership
pub mod Slab
mod Tests
use libkpnet.Base.{
  ℕ, zero, suc, ◌+◌, ◌-◌, ◌*◌, ◌^◌, ◌≤◌, ◌≡◌, length, Bool, true, false, Option, none, some, List,
  [], ◌∷◌, get_or, set, take, u64, ◌==◌, if◌then◌else◌,
}

-- `umem_stack_t`
pub record UmemStack : Type 0 where
  pub addrs : List ℕ
  pub top : ℕ
  pub cap : ℕ

-- `(u64) -1`
abbrev pub no_addr : ℕ
no_addr = 2 ^ 64 - 1

-- The loop of `create_umem_stack` over the array, from index `i` on.
pub fill_addrs : (i chunk_size : ℕ) → List ℕ → List ℕ
fill_addrs i chunk_size [] = []
fill_addrs i chunk_size (_ ∷ raw) = u64 (i * chunk_size) ∷ fill_addrs (suc i) chunk_size raw

-- `handle` says whether the first `malloc` succeeds, `raw` is the array that the second returns.
pub create_umem_stack :
    (handle : Bool) (raw : Option (List ℕ)) → (num_chunks chunk_size : ℕ) → Option UmemStack
unfolding fill_addrs
create_umem_stack false raw num_chunks chunk_size = none
create_umem_stack true none num_chunks chunk_size = none
create_umem_stack true (some raw) num_chunks chunk_size =
    some (record { addrs = fill_addrs 0 chunk_size raw; top = num_chunks; cap = num_chunks })

unfoldable pub umem_stack_pop : UmemStack → ℕ × UmemStack
umem_stack_pop s =
    if s.top == 0
    then (no_addr, s)
    else (get_or s.addrs (s.top - 1) no_addr, record s { top = s.top - 1 })

unfoldable pub umem_stack_push : UmemStack → ℕ → UmemStack
umem_stack_push s addr =
    if s.top == s.cap then s else record s { addrs = set s.addrs s.top addr; top = s.top + 1 }

-- The addresses on the stack, the next one to be popped last.
abbrev pub contents : UmemStack → List ℕ
contents s = take s.top s.addrs

pub record IsStack (s : UmemStack) : Type 0 where
  pub within : s.top ≤ s.cap
  pub storage : length s.addrs ≡ s.cap
