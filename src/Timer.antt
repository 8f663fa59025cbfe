-- ===== src/Timer.antt =====
-- include/ring_buffer.h, src/create_ringtimer.c, src/insert_ringtimer.c, src/tick_ringtimer.c: the
-- timer wheel, an array of circular lists of callbacks. A pointer is a number with NULL for 0, and
-- `heap` gives the callback at a pointer. Memory for callbacks comes from a ring.
pub mod Single
pub mod Insert
pub mod Shared
mod Tests
use mathlib.Core.Option
use libkpnet.Base.{
  ℕ, zero, suc, ◌+◌, ◌-◌, ◌/◌, ◌%◌, ◌^◌, Bool, true, false, Option, none, some, List, [], ◌∷◌, ◌++◌,
  get_or, set, replicate, u32, sub_u64, ◌==◌, if◌then◌else◌,
}
use libkpnet.Ring.{Ringbuf, cell_at, pop_ringbuf, push_ringbuf}

-- `ringtimer_callback_t`
pub record Callback : Type 0 where
  pub retries : ℕ
  pub signal : ℕ
  pub prev : ℕ
  pub next : ℕ

-- `ringtimer_t`
pub record Wheel : Type 0 where
  pub timers : List ℕ
  pub current : ℕ
  pub max : ℕ
  pub allocator : Ringbuf
  pub heap : ℕ → Callback

abbrev pub put : (ℕ → Callback) → ℕ → Callback → ℕ → Callback
put h p c q = if q == p then c else h q

-- `p->prev = v` and `p->next = v`
abbrev pub set_prev : (ℕ → Callback) → (p v : ℕ) → ℕ → Callback
set_prev h p v = put h p (record (h p) { prev = v })

abbrev pub set_next : (ℕ → Callback) → (p v : ℕ) → ℕ → Callback
set_next h p v = put h p (record (h p) { next = v })

-- `handle` says whether `malloc` succeeds, and `array` whether `calloc` does.
unfoldable pub create_ringtimer :
    (handle array : Bool) → (timers_count : ℕ) → Ringbuf → (ℕ → Callback) → Option Wheel
create_ringtimer false array n allocator h = none
create_ringtimer true false n allocator h = none
create_ringtimer true true n allocator h =
    some (record { timers = replicate n 0; current = 0; max = n; allocator = allocator; heap = h })

-- The list head at an index.
abbrev pub head_at : Wheel → ℕ → ℕ
head_at w i = get_or w.timers i 0

-- The new callback `p` in its slot: alone, or behind the last of the list.
abbrev pub link : (signal slot p : ℕ) → Wheel → Wheel
link signal slot p w =
    let i = slot % w.max in
    let laps = slot / w.max in
    let first = head_at w i in
    let last = (w.heap first).prev in
    if first == 0
    then record w {
      timers = set w.timers i p;
      heap = put w.heap p (record { retries = laps; signal = signal; prev = p; next = p });
    }
    else record w {
      heap =
          set_prev
            (put (set_next w.heap last p) p
              (record { retries = laps; signal = signal; prev = last; next = first }))
            first p;
    }

abbrev pub with_memory :
    (signal slot : ℕ) → Wheel → Option (Option ℕ × Ringbuf) → Option (Bool × Wheel)
with_memory signal slot w none = none
with_memory signal slot w (some (none, r)) = none
with_memory signal slot w (some (some i, r)) =
    let p = (cell_at r i).packet in
    if p == 0
    then Option.map (λ x. (false, record w { allocator = x.1 })) (push_ringbuf 0 r 0 0)
    else some (true, link signal slot p (record w { allocator = r }))

-- The result is false for NULL, and `none` says that the call never returns: it waits in a loop
-- for the ring of memory to hold something.
unfoldable pub insert_ringtimer : (signal time : ℕ) → Wheel → Option (Bool × Wheel)
insert_ringtimer signal time w =
    with_memory signal (u32 (w.current + sub_u64 time 1)) w (pop_ringbuf 0 w.allocator)

-- A callback `t` whose time has come is taken out of its list.
abbrev pub unlink : ℕ → Wheel → Wheel
unlink t w =
    let prev = (w.heap t).prev in
    let next = (w.heap t).next in
    if next == t then record w { timers = set w.timers w.current 0 } else record w {
      heap = set_prev (set_next w.heap prev next) next prev;
      timers = if head_at w w.current == t then set w.timers w.current next else w.timers;
    }

-- The memory of `t` goes back; what the push returns is not looked at.
abbrev pub recycle : ℕ → Wheel → Option Wheel
recycle t w = Option.map (λ x. record w { allocator = x.1 }) (push_ringbuf 0 w.allocator t 64)

-- The body of the loop up to the test of the list head: the signals so far, and the wheel.
abbrev pub visit : ℕ → List ℕ → Wheel → Option (List ℕ × Wheel)
visit t out w =
    let c = w.heap t in
    if c.signal == 0
    then some (out, w)
    else (if c.retries == 0
        then Option.map (λ w'. (out ++ u32 c.signal ∷ [], w')) (recycle t (unlink t w))
        else some (out, record w { heap = put w.heap t (record c { retries = c.retries - 1 }) }))

-- The end of the body: the loop stops at an empty list and back at the head.
abbrev pub after_visit :
    (next head : ℕ)
    → (ℕ → List ℕ → Wheel → Option (List ℕ × Wheel))
    → Option (List ℕ × Wheel)
    → Option (List ℕ × Wheel)
after_visit next head loop none = none
after_visit next head loop (some (out, w)) =
    if head_at w w.current == 0
    then some (out, w)
    else (if next == head then some (out, w) else loop next out w)

-- The loop from the callback `t` on; `none` says that the fuel ran out.
pub tick_loop : (fuel head t : ℕ) → List ℕ → Wheel → Option (List ℕ × Wheel)
tick_loop zero head t out w = none
tick_loop (suc fuel) head t out w =
    after_visit (w.heap t).next head (tick_loop fuel head) (visit t out w)

abbrev pub advance : Wheel → Wheel
advance w = record w { current = u32 (w.current + 1) % w.max }

-- `res.signals` up to `res.count`, and the wheel.
unfoldable pub tick_ringtimer : (fuel : ℕ) → Wheel → Option (List ℕ × Wheel)
tick_ringtimer fuel w =
    let head = head_at w w.current in
    if head == 0
    then some ([], advance w)
    else Option.map (λ x. (x.0, advance x.1)) (tick_loop fuel head head [] w)
