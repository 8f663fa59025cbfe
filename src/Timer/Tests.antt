-- ===== src/Timer/Tests.antt =====
-- A wheel of four slots, with a memory ring of two cells that holds one block.
use libkpnet.Base.{ℕ, ◌<◌, replicate, refl, arith, List, [], ◌∷◌, if◌then◌else◌, ◌==◌}
use libkpnet.Ring.{Cell, Ringbuf, create_ringbuf, init_cells, push_at, no_cell}
use libkpnet.Ring.Inv.{IsRing, create_ringbuf-IsRing}
use libkpnet.Ring.Push.{push_at-IsRing}
use libkpnet.Ring.Refine.{Holds}
use libkpnet.Timer.{Callback, Wheel}
use libkpnet.Timer.Single.{IsWheel}
use libkpnet.Timer.Insert.{FiresAfter, get_or-replicate, insert_ringtimer-in_time}
use libkpnet.Timer.Shared.{IsShared, BothFire, tick_ringtimer-BothFire}

abbrev raw : List Cell
raw = no_cell ∷ no_cell ∷ []

abbrev empty_ring : Ringbuf
empty_ring = record { cells = init_cells 0 raw; mask = 1; size = 2; head = 0; tail = 0 }

abbrev one_block : Ringbuf
one_block = push_at empty_ring 0 4096 64

empty_ring-IsRing : IsRing 1 0 0 empty_ring
unfolding create_ringbuf
empty_ring-IsRing = create_ringbuf-IsRing 1 raw (omega arith) (omega arith) refl refl

empty_ring-Holds : Holds 1 [] empty_ring
empty_ring-Holds = record { t = 0; n = 0; valid = empty_ring-IsRing; contents = refl }

one_block-Holds : Holds 1 ((4096, 64) ∷ []) one_block
unfolding push_at init_cells
one_block-Holds = record {
  t = 0;
  n = 1;
  valid = push_at-IsRing empty_ring-IsRing 4096 64 (omega arith);
  contents = refl;
}

abbrev no_callback : Callback
no_callback = record { retries = 0; signal = 0; prev = 0; next = 0 }

-- The wheel at the slot `c`.
abbrev wheel : ℕ → Wheel
wheel c = record {
  timers = replicate 4 0;
  current = c;
  max = 4;
  allocator = one_block;
  heap = λ p. no_callback;
}

wheel-IsWheel : (c : ℕ) → c < 4 → IsWheel 1 ((4096, 64) ∷ []) (wheel c)
wheel-IsWheel c h = record {
  some_slots = omega arith;
  few_slots = omega arith;
  storage = refl;
  within = h;
  memory = one_block-Holds;
}

insert_ringtimer-in_time_example : FiresAfter 1 [] 7 4096 3 2 (wheel 1)
insert_ringtimer-in_time_example =
    insert_ringtimer-in_time 7 3 (wheel-IsWheel 1 (omega arith)) (get_or-replicate 4)
      (λ e. absurd (omega (arith, e))) (λ e. absurd (omega (arith, e))) (omega arith) (omega arith)
      (omega arith)

-- The callbacks 1, which is due, and 2, with five laps to go, in the slot 0.
abbrev shared : Wheel
shared = record (wheel 0) {
  timers = 1 ∷ 0 ∷ 0 ∷ 0 ∷ [];
  heap = λ p.
      if p == 1
      then record { retries = 0; signal = 8; prev = 2; next = 2 }
      else record { retries = 5; signal = 9; prev = 1; next = 1 };
  allocator = empty_ring;
}

shared-IsShared : IsShared 1 2 8 9 5 shared
shared-IsShared = record {
  within = omega arith;
  first_not_null = λ e. absurd (omega (arith, e));
  second_not_null = λ e. absurd (omega (arith, e));
  different = λ e. absurd (omega (arith, e));
  here = refl;
  first = refl;
  second = refl;
  first_alarm = λ e. absurd (omega (arith, e));
  second_alarm = λ e. absurd (omega (arith, e));
}

tick_ringtimer-BothFire_example : BothFire 8 9 7 shared
tick_ringtimer-BothFire_example =
    tick_ringtimer-BothFire 1 2 8 9 5 shared empty_ring-Holds shared-IsShared
