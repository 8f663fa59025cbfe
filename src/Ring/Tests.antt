-- ===== src/Ring/Tests.antt =====
-- Rings of two cells.
use libkpnet.Base.{◌≡◌, refl, arith, true, false, none, some, List, [], ◌∷◌}
use libkpnet.Ring.{Cell, Ringbuf, create_ringbuf, no_cell, init_cells}
use libkpnet.Ring.Queue.{Op, put, get, Reply, pushed, popped}
use libkpnet.Ring.Queue
use libkpnet.Ring.Refine.{run, create-run}

abbrev raw : List Cell
raw = no_cell ∷ no_cell ∷ []

abbrev two_cells : Ringbuf
two_cells = record { cells = init_cells 0 raw; mask = 1; size = 2; head = 0; tail = 0 }

abbrev calls : List Op
calls =
    put 0 100 60 ∷ put 3 200 61 ∷ put 0 300 62 ∷ get 1 ∷ put 0 400 63 ∷ get 0 ∷ get 0 ∷ get 0 ∷ []

create-run_example : run two_cells calls ≡ some (Queue.run 2 [] calls)
unfolding create_ringbuf
create-run_example = create-run 1 raw calls (omega arith) (omega arith) refl refl

answers :
    Queue.run 2 [] calls
    ≡ pushed true
      ∷ pushed true
      ∷ pushed false
      ∷ popped (some (100, 60))
      ∷ pushed true
      ∷ popped (some (200, 61))
      ∷ popped (some (400, 63))
      ∷ popped none
      ∷ []
unfolding Queue.run Queue.push Queue.pop
answers = refl
