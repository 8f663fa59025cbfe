-- ===== src/Timer/Insert.antt =====
-- What a timer that is set on an idle wheel does.
use native.Mathlib.Nat.{mod-lt, div-add-mod'}
use libkpnet.Base.{
  ℕ, replicate, length-replicate, get_or, zero, suc, subst, ◌+◌, ◌-◌, ◌*◌, ◌/◌, ◌%◌, ◌^◌, ◌≤◌, ◌<◌,
  ◌≡◌, ◌≢◌, refl, sym, ap, ◌∙◌, arith, true, some, ◌∷◌, set, get_or-set_self, get_or-set_ne,
  length-set, u32, sub_u64, eq→==, ne→==, mod-eq_of_lt, mod-eq-sub-mod,
}
use libkpnet.Ring.{Ringbuf}
use libkpnet.Ring.Queue
use libkpnet.Ring.Queue.{Queue}
use libkpnet.Ring.Refine.{Holds, pop_refines, popped_at}
use mathlib.Core.Option.{some-injective}
use libkpnet.Timer.{Callback, Wheel, put, head_at, create_ringtimer, insert_ringtimer}
use libkpnet.Timer.Single.{IsWheel, IsIdle, IsSingle, Fires, ahead, single-Fires}

pub get_or-replicate : (n j : ℕ) → ◌≡◌ {A = ℕ} (get_or (replicate n 0) j 0) 0
get_or-replicate zero j = refl
get_or-replicate (suc n) zero = refl
get_or-replicate (suc n) (suc j) = get_or-replicate n j

-- A new wheel is idle.
pub create_ringtimer-IsIdle :
    {k : ℕ} {q : Queue} (n : ℕ) (allocator : Ringbuf) (heap : ℕ → Callback) {w : Wheel}
    → 0 < n
    → n < 2 ^ 32
    → Holds k q allocator
    → create_ringtimer true true n allocator heap ≡ some w
    → IsWheel k q w × IsIdle w × (w.max ≡ n) × (w.current ≡ 0)
unfolding create_ringtimer
create_ringtimer-IsIdle {k} {q} n allocator heap lo hi h e =
    subst (λ w. IsWheel k q w × IsIdle w × (w.max ≡ n) × (w.current ≡ 0)) (some-injective _ _ e)
      (
        record {
          some_slots = lo;
          few_slots = hi;
          storage = length-replicate {A = ℕ} n 0;
          within = lo;
          memory = h;
        },
        get_or-replicate n,
        refl,
        refl,
      )

-- The wheel with the one new callback.
abbrev pub with_one : (signal slot p : ℕ) → Ringbuf → Wheel → Wheel
with_one signal slot p r w = record w {
  timers = set w.timers (slot % w.max) p;
  heap = put w.heap p (record { retries = slot / w.max; signal = signal; prev = p; next = p });
  allocator = r;
}

module _ (signal : ℕ) {k : ℕ} {q : Queue} {w : Wheel} (v : IsWheel k q w) (idle : IsIdle w) where
  with_one-IsWheel :
      {t : Queue} (slot p : ℕ) (r : Ringbuf)
      → Holds k t r
      → IsWheel k t (with_one signal slot p r w)
  with_one-IsWheel slot p r h = record {
    some_slots = v.some_slots;
    few_slots = v.few_slots;
    storage = length-set w.timers (slot % w.max) p ∙ v.storage;
    within = v.within;
    memory = h;
  }

  with_one-IsSingle :
      (slot p : ℕ) (r : Ringbuf)
      → p ≢ 0
      → signal ≢ 0
      → IsSingle (slot % w.max) (slot / w.max) p signal (with_one signal slot p r w)
  with_one-IsSingle slot p r np ns = record {
    slot_lt = mod-lt slot v.some_slots;
    not_null = np;
    here =
        get_or-set_self w.timers (slot % w.max) p 0
          (omega (arith, v.storage, mod-lt slot v.some_slots));
    others = λ j ne. get_or-set_ne w.timers (slot % w.max) j p 0 (λ e. ne (sym e)) ∙ idle j;
    alone = rw (eq→== p p refl) refl;
    alarm = ns;
  }

insert-with_one :
    {k p l : ℕ} {t : Queue} {w : Wheel} (signal time : ℕ)
    → IsWheel k ((p, l) ∷ t) w
    → IsIdle w
    → p ≢ 0
    → (r : Ringbuf) × (insert_ringtimer signal time w
        ≡ some (true, with_one signal (u32 (w.current + sub_u64 time 1)) p r w))
      × Holds k t r
unfolding insert_ringtimer Queue.pop
insert-with_one {p = p} {w = w} signal time v idle np =
    let slot = u32 (w.current + sub_u64 time 1) in
    let (c, r, e, s, h) = pop_refines 0 v.memory in
    let (i, ce, at) = popped_at r c s in
    (
      r,
      rw (e ∙ ap (λ u. some (u, r)) ce) (
          rw
            (
              ap (λ x. x.0) at,
              ne→== p 0 np,
              eq→== (head_at w (slot % w.max)) 0 (idle (slot % w.max)),
            )
            refl),
      h,
    )

slot_near : (s m : ℕ) → s < m → (s % m ≡ s) × (s / m * m ≡ 0)
slot_near s m h = let e = mod-eq_of_lt {n = s} {m = m} h in (e, omega (arith, e, div-add-mod' s m))

slot_far : (s m : ℕ) → m ≤ s → s < m + m → (s % m ≡ s - m) × (s / m * m ≡ m)
slot_far s m h i =
    let e : s % m ≡ s - m =
      mod-eq-sub-mod {n = s} {m = m} h ∙ mod-eq_of_lt {n = s - m} {m = m} (omega arith) in
    (e, omega (arith, e, div-add-mod' s m))

-- The timer is set, and fires in the tick behind the first `n`.
abbrev pub FiresAfter : (k : ℕ) (t : Queue) (signal p time n : ℕ) → Wheel → Type 0
FiresAfter k t signal p time n w =
    (w' : Wheel) × (insert_ringtimer signal time w ≡ some (true, w'))
    × (w'.max ≡ w.max)
    × (w'.current ≡ w.current)
    × Fires k t signal p n w'

module _ {k p l : ℕ} {t : Queue} {w : Wheel} (signal time : ℕ) (v : IsWheel k ((p, l) ∷ t) w)
    (idle : IsIdle w) (np : p ≢ 0) (ns : signal ≢ 0) (set : 1 ≤ time)
    (word : w.current + time ≤ 2 ^ 32) where
  fires :
      (n slot : ℕ)
      → slot ≡ w.current + time - 1
      → n ≡ ahead w.current (slot % w.max) w.max + slot / w.max * w.max
      → FiresAfter k t signal p time n w
  fires n slot at e =
      let (r, run, h) = insert-with_one signal time v idle np in
      let same : u32 (w.current + sub_u64 time 1) ≡ slot = omega arith in
      (
        with_one signal slot p r w,
        run ∙ ap (λ x. some (true, with_one signal x p r w)) same,
        refl,
        refl,
        single-Fires n (slot / w.max) (with_one-IsWheel signal v idle slot p r h)
            (with_one-IsSingle signal v idle slot p r np ns) e,
      )

  -- A timer whose last tick does not lie behind the end of the array fires in time, in the last of
  -- the `time` ticks, and then the wheel is idle again.
  pub insert_ringtimer-in_time :
      w.current + time ≤ w.max → FiresAfter k t signal p time (time - 1) w
  unfolding ahead
  insert_ringtimer-in_time near =
      fires (time - 1) (w.current + time - 1) refl
        (ground (arith, slot_near (w.current + time - 1) w.max (omega (arith, v.within)), v.within))

  -- A timer of at most one lap that goes on at the beginning of the array fires a whole lap late.
  pub insert_ringtimer-late :
      w.max < w.current + time → time ≤ w.max → FiresAfter k t signal p time (w.max + (time - 1)) w
  unfolding ahead
  insert_ringtimer-late far short = fires (w.max + (time - 1)) (w.current + time - 1) refl (
      ground (
        arith,
        slot_far (w.current + time - 1) w.max (omega (arith, v.within)) (omega (arith, v.within)),
        v.within,
      ))
