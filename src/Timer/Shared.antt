-- ===== src/Timer/Shared.antt =====
-- Two callbacks in one slot, of which the first is due.
use libkpnet.Base.{
  ℕ, zero, suc, ◌-◌, ◌<◌, ◌≡◌, ◌≢◌, refl, sym, ap, ◌∙◌, subst, arith, Bool, some, List, [], ◌∷◌,
  ◌++◌, length, set, get_or-set_self, length-set, u32, eq→==, ne→==,
}
use libkpnet.Ring.{Ringbuf, push_ringbuf}
use libkpnet.Ring.Queue.{Queue}
use libkpnet.Ring.Refine.{Holds, push_refines}
use libkpnet.Timer.{Wheel, head_at, tick_loop, tick_ringtimer, set_prev, set_next, advance}
use libkpnet.Timer.Single.{lapped}

-- The slot of this tick holds the callbacks `a` and `b`; `a` is due and `b` has `r` laps to go.
pub record IsShared (a b sa sb r : ℕ) (w : Wheel) : Type 0 where
  pub within : w.current < length w.timers
  pub first_not_null : a ≢ 0
  pub second_not_null : b ≢ 0
  pub different : a ≢ b
  pub here : head_at w w.current ≡ a
  pub first : w.heap a ≡ record { retries = 0; signal = sa; prev = b; next = b }
  pub second : w.heap b ≡ record { retries = r; signal = sb; prev = a; next = a }
  pub first_alarm : sa ≢ 0
  pub second_alarm : sb ≢ 0

-- `b` alone in the list, while the loop still waits for the head `a`.
record IsLeft (a b sb r : ℕ) (w : Wheel) : Type 0 where
  within : w.current < length w.timers
  not_null : b ≢ 0
  different : a ≢ b
  here : head_at w w.current ≡ b
  alone : w.heap b ≡ record { retries = r; signal = sb; prev = b; next = b }
  alarm : sb ≢ 0

left_step :
    {r a b sb : ℕ} {w : Wheel} (fuel : ℕ) (out : List ℕ)
    → IsLeft a b sb (suc r) w
    → tick_loop (suc fuel) a b out w ≡ tick_loop fuel a b out (lapped r b sb w)
unfolding tick_loop
left_step {r} {a} {b} {sb} {w} fuel out v = rw (v.alone) (
    rw
      (
        ne→== sb 0 v.alarm,
        ne→== (suc r) 0 (λ e. absurd (omega (arith, e))),
        v.here,
        ne→== b 0 v.not_null,
        ne→== b a (λ e. v.different (sym e)),
      )
      (ap (λ x. tick_loop fuel a b out (lapped x b sb w)) {x = suc r - 1} {y = r} (omega arith)))

IsLeft-next :
    {r a b sb : ℕ} {w : Wheel} → IsLeft a b sb (suc r) w → IsLeft a b sb r (lapped r b sb w)
IsLeft-next {b = b} v = record {
  within = v.within;
  not_null = v.not_null;
  different = v.different;
  here = v.here;
  alone = rw (eq→== b b refl) refl;
  alarm = v.alarm;
}

left_fires :
    {k : ℕ} {q : Queue} (r a b sb : ℕ) (out : List ℕ) (w : Wheel)
    → Holds k q w.allocator
    → IsLeft a b sb r w
    → (w' : Wheel) × (tick_loop (suc r) a b out w ≡ some (out ++ u32 sb ∷ [], w'))
      × (head_at w' w'.current ≡ 0)
unfolding tick_loop
left_fires zero a b sb out w h v =
    let (rb, e, _) = push_refines 0 b 64 h in
    let empty = get_or-set_self w.timers w.current 0 0 v.within in
    (
      record w { timers = set w.timers w.current 0; allocator = rb },
      rw (v.alone) (rw (ne→== sb 0 v.alarm, eq→== b b refl, e, empty) refl),
      empty,
    )
left_fires (suc r) a b sb out w h v =
    let (w', e, z) = left_fires r a b sb out (lapped r b sb w) h (IsLeft-next v) in
    (w', left_step (suc r) out v ∙ e, z)

-- The wheel after the due callback `a` has left the slot to `b`.
abbrev without_first : (a b : ℕ) → Ringbuf → Wheel → Wheel
without_first a b rb w = record w {
  heap = set_prev (set_next w.heap b b) b b;
  timers = set w.timers w.current b;
  allocator = rb;
}

without_first-IsLeft :
    {a b sa sb r : ℕ} {w : Wheel} (rb : Ringbuf)
    → IsShared a b sa sb r w
    → IsLeft a b sb r (without_first a b rb w)
without_first-IsLeft {b = b} {w = w} rb v = record {
  within = subst (λ n. w.current < n) (sym (length-set w.timers w.current b)) v.within;
  not_null = v.second_not_null;
  different = v.different;
  here = get_or-set_self w.timers w.current b 0 v.within;
  alone = rw (eq→== b b refl, v.second) refl;
  alarm = v.second_alarm;
}

first_step :
    {a b sa sb r : ℕ} {t : Bool} {w : Wheel} (fuel : ℕ) (rb : Ringbuf)
    → IsShared a b sa sb r w
    → push_ringbuf 0 w.allocator a 64 ≡ some (t, rb)
    → tick_loop (suc fuel) a a [] w ≡ tick_loop fuel a b (u32 sa ∷ []) (without_first a b rb w)
unfolding tick_loop
first_step {a} {b} {sa} {w = w} fuel rb v e = rw (v.first) (
    rw
      (
        ne→== sa 0 v.first_alarm,
        ne→== b a (λ e. v.different (sym e)),
        v.here,
        eq→== a a refl,
        e,
        get_or-set_self w.timers w.current b 0 v.within,
        ne→== b 0 v.second_not_null,
        ne→== b a (λ e. v.different (sym e)),
      )
      refl)

-- A tick of a slot whose first callback is due, while the other has laps to go: both are signalled
-- in this tick, whatever the laps, and the slot is empty.
abbrev pub BothFire : (sa sb fuel : ℕ) → Wheel → Type 0
BothFire sa sb fuel w =
    (w' : Wheel) × (tick_ringtimer fuel w ≡ some (u32 sa ∷ u32 sb ∷ [], advance w'))
    × (head_at w' w'.current ≡ 0)

-- When the first callback of a slot is due, the tick also signals a callback behind it in the same
-- slot, however many laps that one still has to wait, and leaves the slot empty.
pub tick_ringtimer-BothFire :
    {k : ℕ} {q : Queue} (a b sa sb r : ℕ) (w : Wheel)
    → Holds k q w.allocator
    → IsShared a b sa sb r w
    → BothFire sa sb (suc (suc r)) w
unfolding tick_ringtimer
tick_ringtimer-BothFire a b sa sb r w h v =
    let (rb, e, h') = push_refines 0 a 64 h in
    let (w', run, z) =
      left_fires r a b sb (u32 sa ∷ []) (without_first a b rb w) h' (without_first-IsLeft rb v) in
    (
      w',
      rw (ne→== (head_at w w.current) 0 (λ c. v.first_not_null (sym v.here ∙ c)))
          (rw (v.here) (rw (first_step (suc r) rb v e ∙ run) refl)),
      z,
    )
