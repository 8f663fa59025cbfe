-- ===== src/Ring/Refine.antt =====
-- A valid ring behaves as the bounded queue of the packets that it holds.
use mathlib.Core.Option
use mathlib.Core.Option.{some-injective}
use libkpnet.Base.{
  ℕ, zero, suc, ◌+◌, ◌≤◌, ◌<◌, ◌^◌, ◌%◌, ◌≡◌, refl, ap, ◌∙◌, arith, true, Option, none, some, List,
  [], ◌∷◌, ◌++◌, length, lt→ltb, le→ltb, dec_lt, sym, subst, ◌-◌,
}
use libkpnet.Ring.{Cell, Ringbuf, create_ringbuf, push_at, push_ringbuf, pop_at, pop_ringbuf}
use libkpnet.Ring.Inv.{IsRing, create_ringbuf-IsRing, size_bounds, packet_at, window}
use libkpnet.Ring.Push.{
  push_ringbuf-room, push_ringbuf-full, push_at-IsRing, contents-push, cell_at-push_self,
}
use libkpnet.Ring.Pop.{pop_ringbuf-some, pop_ringbuf-empty, pop_at-IsRing, contents-pop}
use libkpnet.Ring.Index.{mod-add_self}
use libkpnet.Ring.Queue
use libkpnet.Ring.Queue.{Queue, Op, put, get, Reply, pushed, popped}

-- The ring is valid and holds the packets of `q`, oldest first.
pub record Holds (k : ℕ) (q : Queue) (rb : Ringbuf) : Type 0 where
  pub t : ℕ
  pub n : ℕ
  pub valid : IsRing k t n rb
  pub contents : window rb k t 0 n ≡ q

length-window : (rb : Ringbuf) (k t i n : ℕ) → length (window rb k t i n) ≡ n
length-window rb k t i zero = refl
length-window rb k t i (suc n) = ap suc (length-window rb k t (suc i) n)

pub length-Holds : {k : ℕ} {q : Queue} {rb : Ringbuf} (h : Holds k q rb) → length q ≡ h.n
length-Holds {k} {rb = rb} h = sym (ap length h.contents) ∙ length-window rb k h.t 0 h.n

-- What a push returns and leaves behind is what the queue's push does, both when there is room and
-- when the ring is full.
abbrev pub PushRefines : ℕ → Queue → Ringbuf → (s packet plen : ℕ) → Type 0
PushRefines k q rb s packet plen =
    let (b, q') = Queue.push (2 ^ k) q (packet, plen) in
    (rb' : Ringbuf) × (push_ringbuf s rb packet plen ≡ some (b, rb')) × Holds k q' rb'

pub push_refines :
    {k : ℕ} {q : Queue} {rb : Ringbuf} (s packet plen : ℕ)
    → Holds k q rb
    → PushRefines k q rb s packet plen
unfolding Queue.push
push_refines {k} {q} {rb} s packet plen h = elim (dec_lt (length q) (2 ^ k)) [
  | yes p ↦
      let room : h.n < 2 ^ k = omega (arith, length-Holds h) in
      rw (lt→ltb _ _ p) (
        push_at rb rb.head packet plen,
        push_ringbuf-room h.valid s packet plen room,
        record {
          t = h.t;
          n = suc h.n;
          valid = push_at-IsRing h.valid packet plen room;
          contents =
              contents-push h.valid packet plen room
              ∙ ap (λ xs. xs ++ (packet, plen) ∷ []) h.contents;
        },
      )
  | no p ↦
      rw (le→ltb (length q) (2 ^ k) (omega arith)) (
        rb,
        push_ringbuf-full h.valid s packet plen (omega (arith, length-Holds h, h.valid.fits)),
        h,
      )
]

pub push_fits :
    {k : ℕ} {q : Queue} {rb : Ringbuf} (s packet plen : ℕ)
    → Holds k q rb
    → length q < 2 ^ k
    → (rb' : Ringbuf) × (push_ringbuf s rb packet plen ≡ some (true, rb'))
      × Holds k (q ++ (packet, plen) ∷ []) rb'
unfolding Queue.push
push_fits {k} {q} {rb} s packet plen h p =
    let room : Queue.push (2 ^ k) q (packet, plen) ≡ (true, q ++ (packet, plen) ∷ []) =
      rw (lt→ltb _ _ p) refl in
    subst
      (λ x. (rb' : Ringbuf) × (push_ringbuf s rb packet plen ≡ some (x.0, rb')) × Holds k x.1 rb')
      room (push_refines s packet plen h)

-- The packet that a returned pointer shows right after the call.
abbrev pub read : Ringbuf → Option ℕ → Option (ℕ × ℕ)
read rb = Option.map (packet_at rb)

abbrev pub PopRefines : ℕ → Queue → Ringbuf → ℕ → Type 0
PopRefines k q rb s =
    let (x, q') = Queue.pop q in
    (c : Option ℕ) × (rb' : Ringbuf) × (pop_ringbuf s rb ≡ some (c, rb'))
    × (read rb' c ≡ x)
    × Holds k q' rb'

pop_Holds :
    {k t : ℕ} {rb : Ringbuf} (s n : ℕ) (q : Queue)
    → IsRing k t n rb
    → window rb k t 0 n ≡ q
    → PopRefines k q rb s
unfolding Queue.pop
pop_Holds s zero [] v e =
    (none, _, pop_ringbuf-empty s v, refl, record { t = _; n = 0; valid = v; contents = refl })
pop_Holds s zero (x ∷ q) v e = absurd (cc)
pop_Holds s (suc n) [] v e = absurd (cc)
pop_Holds {k} {t} {rb} s (suc n) (x ∷ q) v e =
    let c = sym (contents-pop v) ∙ e in
    (
      some (t % 2 ^ k),
      pop_at rb rb.tail,
      pop_ringbuf-some s v (omega arith),
      cc c,
      record { t = suc t; n = n; valid = pop_at-IsRing v; contents = cc c },
    )

pub pop_refines : {k : ℕ} {q : Queue} {rb : Ringbuf} (s : ℕ) → Holds k q rb → PopRefines k q rb s
pop_refines {q = q} s h = pop_Holds s h.n q h.valid h.contents

-- Where the caller sees a packet, the pointer is one to a cell.
pub popped_at :
    (rb : Ringbuf) {x : ℕ × ℕ} (c : Option ℕ)
    → read rb c ≡ some x
    → (i : ℕ) × (c ≡ some i) × (packet_at rb i ≡ x)
popped_at rb none e = absurd (cc e)
popped_at rb (some i) e = (i, refl, some-injective _ _ e)

-- A client's calls in order; `none` would be a call that never returns.
pub run : Ringbuf → List Op → Option (List Reply)
run rb [] = some []
run rb (put s packet plen ∷ ops) = elim (push_ringbuf s rb packet plen) [
  | none ↦ none
  | some (b, rb') ↦ Option.map (λ rs. pushed b ∷ rs) (run rb' ops)
]
run rb (get s ∷ ops) = elim (pop_ringbuf s rb) [
  | none ↦ none
  | some (c, rb') ↦ Option.map (λ rs. popped (read rb' c) ∷ rs) (run rb' ops)
]

pub run_refines :
    {k : ℕ} (ops : List Op) {q : Queue} {rb : Ringbuf}
    → Holds k q rb
    → run rb ops ≡ some (Queue.run (2 ^ k) q ops)
unfolding run Queue.run
run_refines [] h = refl
run_refines (put s packet plen ∷ ops) h =
    let (rb', e, h') = push_refines s packet plen h in ground (arith, e, run_refines ops h')
run_refines (get s ∷ ops) h =
    let (c, rb', e, shown, h') = pop_refines s h in ground (arith, e, run_refines ops h', shown)

-- A ring that `create_ringbuf` makes at a size of 2 ^ k, with 1 ≤ k ≤ 63, answers every sequence
-- of pushes and pops as an empty queue of capacity 2 ^ k does: each call returns, a push succeeds
-- exactly while there is room, and the packets come out in the order in which they went in, also
-- after the 64-bit counters have wrapped round.
pub create-run :
    (k : ℕ) (raw : List Cell) (ops : List Op) {rb : Ringbuf}
    → 1 ≤ k
    → k ≤ 63
    → length raw ≡ 2 ^ k
    → create_ringbuf true (some raw) (2 ^ k) ≡ some rb
    → run rb ops ≡ some (Queue.run (2 ^ k) [] ops)
create-run k raw ops lo hi len e =
    run_refines ops
      (record { t = 0; n = 0; valid = create_ringbuf-IsRing k raw lo hi len e; contents = refl })

abbrev pub Overwrites : Ringbuf → (s s' packet plen : ℕ) → Type 0
Overwrites rb s s' packet plen =
    (c : ℕ) × (rb₁ : Ringbuf) × (rb₂ : Ringbuf) × (pop_ringbuf s rb ≡ some (some c, rb₁))
    × (push_ringbuf s' rb₁ packet plen ≡ some (true, rb₂))
    × (packet_at rb₂ c ≡ (packet, plen))

Overwrites-last :
    {k t : ℕ} {rb : Ringbuf} (n s s' packet plen : ℕ)
    → suc n ≡ 2 ^ k
    → IsRing k t (suc n) rb
    → Overwrites rb s s' packet plen
Overwrites-last {k} {t} {rb} n s s' packet plen e v =
    let v₁ = pop_at-IsRing v in
    let same : (suc t + n) % 2 ^ k ≡ t % 2 ^ k =
      ap (λ (x : ℕ). x % 2 ^ k) (omega (arith, e)) ∙ mod-add_self (2 ^ k) t in
    (
      t % 2 ^ k,
      pop_at rb rb.tail,
      push_at (pop_at rb rb.tail) (pop_at rb rb.tail).head packet plen,
      pop_ringbuf-some s v (omega arith),
      push_ringbuf-room v₁ s' packet plen (omega arith),
      rw (← same) (ap (λ c. (c.packet, c.plen)) (cell_at-push_self v₁ packet plen)),
    )

-- A full ring releases the popped cell before its caller has read it: one push that follows the
-- pop succeeds and overwrites the packet and the length that the returned pointer points at.
pub pop-push-Overwrites :
    {k t : ℕ} {rb : Ringbuf} (s s' packet plen : ℕ)
    → IsRing k t (2 ^ k) rb
    → Overwrites rb s s' packet plen
pop-push-Overwrites {k} {t} {rb} s s' packet plen v =
    let e : suc (2 ^ k - 1) ≡ 2 ^ k = omega (arith, size_bounds v) in
    Overwrites-last (2 ^ k - 1) s s' packet plen e (subst (λ n. IsRing k t n rb) (sym e) v)
