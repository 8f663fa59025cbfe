-- ===== src/Timer/Single.antt =====
-- A wheel with one callback: when it fires.
use libkpnet.Base.{
  ℕ, zero, suc, ◌+◌, ◌-◌, ◌*◌, ◌%◌, ◌^◌, ◌<◌, ◌≡◌, ◌≢◌, refl, sym, ap, ◌∙◌, subst, arith, Bool,
  some, List, [], ◌∷◌, length, set, get_or-set_self, get_or-set_ne, length-set, u32, if◌then◌else◌,
  ℕ_discrete, eq→==, ne→==, ltb, mod-eq_of_lt, mod-eq-sub-mod,
}
use native.Mathlib.Nat.{mod-lt}
use libkpnet.Ring.{Ringbuf, push_ringbuf}
use libkpnet.Ring.Queue
use libkpnet.Ring.Queue.{Queue}
use libkpnet.Ring.Refine.{Holds, push_refines}
use libkpnet.Timer.{Wheel, put, head_at, tick_loop, tick_ringtimer, advance}

-- The wheel turns: its array has `max` heads, and the memory ring is valid.
pub record IsWheel (k : ℕ) (q : Queue) (w : Wheel) : Type 0 where
  pub some_slots : 0 < w.max
  pub few_slots : w.max < 2 ^ 32
  pub storage : length w.timers ≡ w.max
  pub within : w.current < w.max
  pub memory : Holds k q w.allocator

-- No list has a callback.
abbrev pub IsIdle : Wheel → Type 0
IsIdle w = (j : ℕ) → head_at w j ≡ 0

-- The only callback is `p`, in the slot `i`, with `r` laps to go.
pub record IsSingle (i r p signal : ℕ) (w : Wheel) : Type 0 where
  pub slot_lt : i < w.max
  pub not_null : p ≢ 0
  pub here : head_at w i ≡ p
  pub others : (j : ℕ) → j ≢ i → head_at w j ≡ 0
  pub alone : w.heap p ≡ record { retries = r; signal = signal; prev = p; next = p }
  pub alarm : signal ≢ 0

-- The next tick gives `out` and leaves the wheel as `P` says.
abbrev pub Ticks : Wheel → List ℕ → (Wheel → Type 0) → Type 0
Ticks w out P = (w' : Wheel) × (tick_ringtimer 1 w ≡ some (out, w')) × P w'

-- After `n` ticks without a signal the next one gives `signal`, and the wheel is idle with the
-- memory back in its ring where there is room.
pub data Fires (k : ℕ) (q : Queue) (signal p : ℕ) : ℕ → Wheel → Type 0 where
  now :
      {w : Wheel} (w' : Wheel)
      → tick_ringtimer 1 w ≡ some (u32 signal ∷ [], w')
      → IsWheel k (Queue.push (2 ^ k) q (p, 64)).1 w'
      → IsIdle w'
      → w'.max ≡ w.max
      → w'.current ≡ (w.current + 1) % w.max
      → Fires k q signal p 0 w
  later :
      {n : ℕ} {w : Wheel} (w' : Wheel)
      → tick_ringtimer 1 w ≡ some ([], w')
      → w'.max ≡ w.max
      → w'.current ≡ (w.current + 1) % w.max
      → Fires k q signal p n w'
      → Fires k q signal p (suc n) w

module _ {k : ℕ} {q : Queue} {w : Wheel} (v : IsWheel k q w) where
  advance-current : (advance w).current ≡ (w.current + 1) % w.max
  advance-current = ap (λ x. x % w.max) (omega (arith, v.within, v.few_slots))

  advance-IsWheel : IsWheel k q (advance w)
  advance-IsWheel = record {
    some_slots = v.some_slots;
    few_slots = v.few_slots;
    storage = v.storage;
    within = mod-lt _ v.some_slots;
    memory = v.memory;
  }

  idle_tick : head_at w w.current ≡ 0 → tick_ringtimer 1 w ≡ some ([], advance w)
  unfolding tick_ringtimer
  idle_tick e = rw (eq→== (head_at w w.current) 0 e) refl

-- The cases of a tick of a wheel with one callback.
module _ {k i r p signal : ℕ} {q : Queue} {w : Wheel} (v : IsWheel k q w)
    (s : IsSingle i r p signal w) where
  elsewhere : w.current ≢ i → IsSingle i r p signal (advance w)
  elsewhere ne = record {
    slot_lt = s.slot_lt;
    not_null = s.not_null;
    here = s.here;
    others = s.others;
    alone = s.alone;
    alarm = s.alarm;
  }

-- The callback with a lap less to go.
abbrev pub lapped : (r p signal : ℕ) → Wheel → Wheel
lapped r p signal w = record w {
  heap = put w.heap p (record { retries = r; signal = signal; prev = p; next = p });
}

lapped-IsSingle :
    {i r p signal : ℕ} {w : Wheel} (r' : ℕ)
    → IsSingle i r p signal w
    → IsSingle i r' p signal (advance (lapped r' p signal w))
lapped-IsSingle {p = p} r' s = record {
  slot_lt = s.slot_lt;
  not_null = s.not_null;
  here = s.here;
  others = s.others;
  alone = rw (eq→== p p refl) refl;
  alarm = s.alarm;
}

module _ {k r p signal : ℕ} {q : Queue} {w : Wheel} (v : IsWheel k q w) where
  lap_tick :
      IsSingle w.current (suc r) p signal w
      → tick_ringtimer 1 w ≡ some ([], advance (lapped r p signal w))
  unfolding tick_ringtimer tick_loop
  lap_tick s = rw (ne→== (head_at w w.current) 0 (λ e. s.not_null (sym s.here ∙ e))) (
      rw (s.here) (
        rw (s.alone) (
          rw
            (
              ne→== signal 0 s.alarm,
              ne→== (suc r) 0 (λ e. absurd (omega (arith, e))),
              s.here,
              ne→== p 0 s.not_null,
              eq→== p p refl,
            )
            (ap (λ x. some ([], advance (lapped x p signal w))) {x = suc r - 1} {y = r}
              (omega arith)))))

-- The wheel without its callback.
abbrev pub emptied : Ringbuf → Wheel → Wheel
emptied rb w = record w { timers = set w.timers w.current 0; allocator = rb }

module _ {k p signal : ℕ} {q : Queue} {w : Wheel} (v : IsWheel k q w)
    (s : IsSingle w.current 0 p signal w) where
  emptied-IsIdle : (rb : Ringbuf) → IsIdle (advance (emptied rb w))
  emptied-IsIdle rb j = elim (ℕ_discrete w.current j) [
    | yes e ↦ rw (← e) (get_or-set_self w.timers w.current 0 0 (omega (arith, v.storage, v.within)))
    | no ne ↦ get_or-set_ne w.timers w.current j 0 0 ne ∙ s.others j (λ e. ne (sym e))
  ]

  emptied-IsWheel : {t : Queue} (rb : Ringbuf) → Holds k t rb → IsWheel k t (advance (emptied rb w))
  emptied-IsWheel rb h = record {
    some_slots = v.some_slots;
    few_slots = v.few_slots;
    storage = length-set w.timers w.current 0 ∙ v.storage;
    within = mod-lt _ v.some_slots;
    memory = h;
  }

  fire_tick :
      {b : Bool} (rb : Ringbuf)
      → push_ringbuf 0 w.allocator p 64 ≡ some (b, rb)
      → tick_ringtimer 1 w ≡ some (u32 signal ∷ [], advance (emptied rb w))
  unfolding tick_ringtimer tick_loop
  fire_tick rb e = rw (ne→== (head_at w w.current) 0 (λ e. s.not_null (sym s.here ∙ e))) (
      rw (s.here) (
        rw (s.alone) (
          rw
            (
              ne→== signal 0 s.alarm,
              eq→== p p refl,
              e,
              get_or-set_self w.timers w.current 0 0 (omega (arith, v.storage, v.within)),
            )
            refl)))

  fire : Fires k q signal p 0 w
  fire =
      let (rb, e, h) = push_refines 0 p 64 v.memory in
      now (advance (emptied rb w)) (fire_tick rb e) (emptied-IsWheel rb h) (emptied-IsIdle rb) refl
        (advance-current v)

-- How many ticks until the wheel is at `i`, and how many until a callback with `r` laps fires.
unfoldable pub ahead : (c i max : ℕ) → ℕ
ahead c i max = if ltb i c then i + max - c else i - c

next_slot : (c i m : ℕ) → c < m → i < m → c ≢ i → suc (ahead ((c + 1) % m) i m) ≡ ahead c i m
unfolding ahead
next_slot c i m h j ne = elim (ℕ_discrete (c + 1) m) [
  | yes e ↦ ground (arith, mod-eq-sub-mod {n = c + 1} {m = m}, mod-eq_of_lt {n = c + 1 - m} {m = m})
  | no n ↦ ground (arith, mod-eq_of_lt {n = c + 1} {m = m})
]

whole_lap : (c m : ℕ) → c < m → suc (ahead ((c + 1) % m) c m) ≡ m
unfolding ahead
whole_lap c m h = elim (ℕ_discrete (c + 1) m) [
  | yes e ↦ ground (arith, mod-eq-sub-mod {n = c + 1} {m = m}, mod-eq_of_lt {n = c + 1 - m} {m = m})
  | no n ↦ ground (arith, mod-eq_of_lt {n = c + 1} {m = m})
]

ahead_self : (c m : ℕ) → ahead c c m ≡ 0
unfolding ahead
ahead_self c m = ground arith

ahead_zero : (c i m : ℕ) → c < m → ahead c i m ≡ 0 → i ≡ c
unfolding ahead
ahead_zero c i m h e = ground (arith, e)

lapped-IsWheel :
    {k : ℕ} {q : Queue} {w : Wheel} (r p signal : ℕ)
    → IsWheel k q w
    → IsWheel k q (lapped r p signal w)
lapped-IsWheel r p signal v = record {
  some_slots = v.some_slots;
  few_slots = v.few_slots;
  storage = v.storage;
  within = v.within;
  memory = v.memory;
}

-- The callback fires in the tick behind `n`, `n` being what is left of this lap and the whole laps.
pub single-Fires :
    {k p signal : ℕ} {q : Queue} (n r : ℕ) {i : ℕ} {w : Wheel}
    → IsWheel k q w
    → IsSingle i r p signal w
    → n ≡ ahead w.current i w.max + r * w.max
    → Fires k q signal p n w
single-Fires {k} {p} {signal} {q} zero zero {i} {w} v s e = fire v (
    subst (λ j. IsSingle j 0 p signal w) (ahead_zero w.current i w.max v.within (omega (arith, e)))
      s)
single-Fires zero (suc r) v s e = absurd (omega (arith, e, v.some_slots))
single-Fires {k} {p} {signal} {q} (suc n) zero {i} {w} v s e = elim (ℕ_discrete w.current i) [
  | yes c ↦ absurd (omega (arith, e, ap (λ x. ahead x i w.max) c, ahead_self i w.max))
  | no ne ↦ later (advance w) (idle_tick v (s.others w.current ne)) refl (advance-current v) (
      single-Fires n zero (advance-IsWheel v) (elsewhere v s ne) (
        omega (
          arith,
          e,
          ap (λ c. ahead c i w.max) (advance-current v),
          next_slot w.current i w.max v.within s.slot_lt ne,
        )))
]
single-Fires {k} {p} {signal} {q} (suc n) (suc r) {i} {w} v s e = elim (ℕ_discrete w.current i) [
  | yes c ↦
      let here = subst (λ j. IsSingle j (suc r) p signal w) (sym c) s in
      later (advance (lapped r p signal w)) (lap_tick v here) refl (advance-current v) (
        single-Fires n r (advance-IsWheel (lapped-IsWheel r p signal v)) (lapped-IsSingle r here) (
          omega (
            arith,
            e,
            ap (λ x. ahead x i w.max) c,
            ahead_self i w.max,
            ap (λ x. ahead x w.current w.max) (advance-current v),
            whole_lap w.current w.max v.within,
          )))
  | no ne ↦ later (advance w) (idle_tick v (s.others w.current ne)) refl (advance-current v) (
      single-Fires n (suc r) (advance-IsWheel v) (elsewhere v s ne) (
        omega (
          arith,
          e,
          ap (λ c. ahead c i w.max) (advance-current v),
          next_slot w.current i w.max v.within s.slot_lt ne,
        )))
]
