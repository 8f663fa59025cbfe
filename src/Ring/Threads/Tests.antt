-- ===== src/Ring/Threads/Tests.antt =====
-- Threads 0 and 1 push and thread 2 pops, on a ring of two cells.
use libkpnet.Base.{ℕ, ◌≡◌, ◌++◌, refl, arith, false, some, List, [], ◌∷◌, bit_and}
use libkpnet.Ring.{Cell, Ringbuf, no_cell, create_ringbuf, init_cells}
use libkpnet.Ring.Inv.{packet_at}
use libkpnet.Ring.Threads.{
  popped, System, Event, call_push, call_pop, access, step, run, start, push_move, pop_move,
  owned_cell,
}
use libkpnet.Ring.Threads.Exclusive.{run-Exclusive, run-Delivers}
use libkpnet.Ring.Threads.Refusals.{NoRoom, NothingThere, run-NoRoom, run-NothingThere}

abbrev raw : List Cell
raw = no_cell ∷ no_cell ∷ []

abbrev two_cells : Ringbuf
two_cells = record { cells = init_cells 0 raw; mask = 1; size = 2; head = 0; tail = 0 }

abbrev push_by : ℕ → ℕ → ℕ → List Event
push_by i packet plen =
    call_push i packet plen
    ∷ access i false
    ∷ access i false
    ∷ access i false
    ∷ access i false
    ∷ access i false
    ∷ access i false
    ∷ []

-- Both load `head`; thread 1 wins, thread 0 fails, loads again and takes the next position.
abbrev contended : List Event
contended =
    call_push 0 100 60
    ∷ call_push 1 200 61
    ∷ access 0 false
    ∷ access 1 false
    ∷ access 0 false
    ∷ access 1 false
    ∷ access 1 false
    ∷ access 0 false
    ∷ access 0 false
    ∷ access 0 false
    ∷ access 0 false
    ∷ []

abbrev after_contended : System
after_contended = run (start two_cells) contended

owners :
    (owned_cell after_contended.ring (after_contended.pc 0) ≡ some 1)
    × (owned_cell after_contended.ring (after_contended.pc 1) ≡ some 0)
unfolding run step push_move init_cells
owners = (refl, refl)

run-Exclusive_example : ◌≡◌ {A = ℕ} 1 1
unfolding run step push_move create_ringbuf init_cells
run-Exclusive_example =
    run-Exclusive 1 raw {rb = two_cells} contended (omega arith) (omega arith) refl refl
      (omega arith) 1 1 {c = 0} refl refl

-- Thread 2 has taken position 0 and not released its cell yet.
abbrev taken : List Event
taken = push_by 0 100 60 ++ call_pop 2 ∷ access 2 false ∷ access 2 false ∷ access 2 false ∷ []

run-Delivers_example :
    let s = run (start two_cells) taken in packet_at s.ring (bit_and 0 s.ring.mask) ≡ s.log 0
unfolding run step push_move pop_move create_ringbuf init_cells
run-Delivers_example =
    run-Delivers 1 raw {rb = two_cells} taken (omega arith) (omega arith) refl refl (omega arith) 2
      {pos = 0} refl

-- It releases the cell, and before it reads the packet, thread 0 pushes two more.
abbrev overwritten : System
overwritten = run (start two_cells) (taken ++ access 2 false ∷ push_by 0 200 61 ++ push_by 0 300 62)

pop_overwritten :
    (overwritten.pc 2 ≡ popped (some 0))
    × (overwritten.log 0 ≡ (100, 60))
    × (packet_at overwritten.ring 0 ≡ (300, 62))
unfolding run step push_move pop_move init_cells
pop_overwritten = (refl, refl, refl)

-- Thread 1 looks at a ring in which thread 2 has not released the only cell that it may take.
abbrev refused : List Event
refused = taken ++ push_by 0 200 61 ++ call_push 1 300 62 ∷ access 1 false ∷ []

run-NoRoom_example : NoRoom 1 (run (start two_cells) refused)
unfolding run step push_move pop_move create_ringbuf init_cells
run-NoRoom_example =
    run-NoRoom 1 raw {rb = two_cells} refused (omega arith) (omega arith) refl refl (omega arith) 1
      300 62 2 false refl refl

-- Thread 2 looks at the cell of position 0, which thread 1 has taken and not published.
abbrev unpublished : List Event
unpublished = contended ++ call_pop 2 ∷ access 2 false ∷ []

run-NothingThere_example : NothingThere (run (start two_cells) unpublished)
unfolding run step push_move pop_move create_ringbuf init_cells
run-NothingThere_example =
    run-NothingThere 1 raw {rb = two_cells} unpublished (omega arith) (omega arith) refl refl
      (omega arith) 2 0 false refl refl
