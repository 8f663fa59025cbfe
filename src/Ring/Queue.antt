-- ===== src/Ring/Queue.antt =====
-- The abstract view of a ring: a queue of at most `cap` pairs of a packet and its length, and the
-- calls that a client makes of it.
use libkpnet.Base.{
  ℕ, Bool, true, false, Option, none, some, List, [], ◌∷◌, ◌++◌, length, ltb, if◌then◌else◌,
}

abbrev pub Queue : Type 0
Queue = List (ℕ × ℕ)

unfoldable pub push : ℕ → Queue → ℕ × ℕ → Bool × Queue
push cap q x = if ltb (length q) cap then (true, q ++ (x ∷ [])) else (false, q)

unfoldable pub pop : Queue → Option (ℕ × ℕ) × Queue
pop [] = (none, [])
pop (x ∷ q) = (some x, q)

-- A call, with the number of spurious failures of its compare-exchange.
pub data Op : Type 0 where
  put : (spurious packet plen : ℕ) → Op
  get : (spurious : ℕ) → Op

-- What the caller sees: the status of a push, the packet of a pop.
pub data Reply : Type 0 where
  pushed : Bool → Reply
  popped : Option (ℕ × ℕ) → Reply

unfoldable pub run : ℕ → Queue → List Op → List Reply
run cap q [] = []
run cap q (put _ packet plen ∷ ops) =
    let (b, q') = push cap q (packet, plen) in pushed b ∷ run cap q' ops
run cap q (get _ ∷ ops) = let (x, q') = pop q in popped x ∷ run cap q' ops
