-- ===== src/Random/Tests.antt =====
-- A buffer with one byte left, and one with four that another thread draws from as well.
use mathlib.Core.Option
use libkpnet.Base.{
  ℕ, ◌+◌, ◌≡◌, refl, arith, some, List, [], ◌∷◌, replicate, length, length-replicate,
}
use libkpnet.Random.{Random, Others, from_buffer}
use libkpnet.Random.Fresh.{Drawn, from_buffer-Drawn}

abbrev nobody : Others
nobody = record {
  tested = λ i r. r;
  located = λ i r. r;
  added = λ i r. r;
  reset = λ i r. r;
  refilled = λ i r. r;
}

-- Another draw of four bytes behind the test.
abbrev racing : Others
racing = record nobody { tested = λ i r. record r { head = r.head + 4 } }

abbrev used_to : ℕ → Random
used_to head = record { buffer = replicate 1024 7; head = head }

from_buffer-Drawn_example :
    (x : List ℕ × Random) × (from_buffer nobody 2 4 (1 ∷ 2 ∷ []) (used_to 1023) ≡ some x)
    × Drawn 4 (1 ∷ 2 ∷ []) (used_to 1023) x
from_buffer-Drawn_example =
    from_buffer-Drawn nobody
      (record {
        tested = λ i r. refl;
        located = λ i r. refl;
        added = λ i r. refl;
        reset = λ i r. refl;
        refilled = λ i r. refl;
      })
      4 (1 ∷ 2 ∷ []) (used_to 1023)
      (record { storage = length-replicate {A = ℕ} 1024 7; within = omega arith }) (omega arith)

-- The second draw then finds nothing in the buffer: the code reads behind it.
behind_the_buffer : Option.map (λ x. length x.0) (from_buffer racing 1 4 [] (used_to 1020)) ≡ some 0
unfolding from_buffer
behind_the_buffer = refl
