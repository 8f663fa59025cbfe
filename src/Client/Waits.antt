-- ===== src/Client/Waits.antt =====
-- The client between two expirations of T1.
use Prim.{Unit, tt}
use libkpnet.Base.{
  ℕ, suc, ◌+◌, ◌-◌, ◌*◌, ◌%◌, ◌^◌, ◌≤◌, ◌<◌, ◌≡◌, ◌≢◌, refl, ◌∙◌, subst, arith, some, [], ◌∷◌, ◌++◌,
  length, length-append, min, u32, u64, ltb, if◌then◌else◌, lt→ltb, le→ltb, dec_lt,
}
use libkpnet.Xdp.{Xdp}
use libkpnet.Ring.Queue
use libkpnet.Ring.Queue.{Queue}
use libkpnet.Timer.{Wheel, tick_ringtimer}
use libkpnet.Timer.Single.{IsWheel, IsIdle, Fires}
use libkpnet.Timer.Insert.{FiresAfter, insert_ringtimer-in_time, insert_ringtimer-late}
use libkpnet.Client.{Client, timer_step, on_signals, client_tick}
use libkpnet.Client.Sends.{CanSend, SentTwo, eth_send_sctp-CanSend}

abbrev pub NonNull : Queue → Type 0
NonNull [] = Unit
NonNull ((p, l) ∷ q) = (p ≢ 0) × NonNull q

abbrev pub slots : ℕ
slots = 300

-- After how many ticks the next one signals a timer of `t` ticks that is set at `c`.
unfoldable pub delay : (c t : ℕ) → ℕ
delay c t = if ltb slots (c + t) then slots + (t - 1) else t - 1

-- The interval that follows.
abbrev pub doubled : ℕ → ℕ
doubled t = min (t * 2) 60

-- What a waiting client keeps: the wheel at `c` with the callback `p` taken from the memory ring,
-- which holds `q`, `r` expirations so far, and room for sending the packet `left` times.
pub record Held (k c r t left p : ℕ) (q : Queue) (s : Client) : Type 0 where
  pub slots_eq : s.timer.max ≡ slots
  pub at_slot : s.timer.current ≡ c
  pub in_array : c < slots
  pub not_null : p ≢ 0
  pub others : NonNull q
  pub room : length q < 2 ^ k
  pub count : s.handshake_retrans ≡ r
  pub interval : s.t1_timer ≡ t
  pub started : 1 ≤ t
  pub bounded : t ≤ 60
  pub sends : CanSend left s.packet s.xdp

abbrev pub Waiting : (k n c r t left : ℕ) → Client → Type 0
Waiting k n c r t left s = (p : ℕ) × (q : Queue) × Held k c r t left p q s × Fires k q 1 p n s.timer

-- A timer on an idle wheel.
pub set_timer :
    {k p l : ℕ} {q : Queue} {w : Wheel} (t : ℕ)
    → IsWheel k ((p, l) ∷ q) w
    → IsIdle w
    → p ≢ 0
    → w.max ≡ slots
    → 1 ≤ t
    → t ≤ 60
    → FiresAfter k q 1 p t (delay w.current t) w
unfolding delay
set_timer {k} {p} {q = q} {w = w} t v idle np m lo hi = elim (dec_lt slots (w.current + t)) [
  | yes far ↦ rw (lt→ltb _ _ far) (
      subst (λ n. FiresAfter k q 1 p t (n + (t - 1)) w) m
        (insert_ringtimer-late 1 t v idle np (λ e. absurd (omega (arith, e))) lo
          (omega (arith, v.within, m)) (omega (arith, m)) (omega (arith, m))))
  | no near ↦ rw (le→ltb slots (w.current + t) (omega arith)) (
      insert_ringtimer-in_time 1 t v idle np (λ e. absurd (omega (arith, e))) lo
        (omega (arith, v.within, m)) (omega (arith, m)))
]

-- The memory ring after the callback went back: its oldest block is there.
abbrev Rotated : Queue → ℕ → Type 0
Rotated q p =
    (p' : ℕ) × (l : ℕ) × (q' : Queue) × (q ++ (p, 64) ∷ [] ≡ (p', l) ∷ q')
    × (p' ≢ 0)
    × NonNull q'
    × (length q' ≡ length q)

NonNull-append : (q : Queue) (p : ℕ) → p ≢ 0 → NonNull q → NonNull (q ++ (p, 64) ∷ [])
NonNull-append [] p np h = (np, tt)
NonNull-append ((x, l) ∷ q) p np (h, hs) = (h, NonNull-append q p np hs)

rotate : (q : Queue) (p : ℕ) → p ≢ 0 → NonNull q → Rotated q p
rotate [] p np h = (p, 64, [], refl, np, tt, refl)
rotate ((x, l) ∷ q) p np (h, hs) = (
  x,
  l,
  q ++ (p, 64) ∷ [],
  refl,
  h,
  NonNull-append q p np hs,
  omega (arith, length-append q ((p, 64) ∷ [])),
)

push-room :
    (k p : ℕ) (q : Queue) → length q < 2 ^ k → (Queue.push (2 ^ k) q (p, 64)).1 ≡ q ++ (p, 64) ∷ []
unfolding Queue.push
push-room k p q h = rw (lt→ltb _ _ h) refl

-- A second in which nothing is sent, and one in which the same packet is sent again.
abbrev pub Quiet : Client → Client → Type 0
Quiet s s' = (s'.xdp ≡ s.xdp) × (s'.handshake_retrans ≡ s.handshake_retrans)

abbrev pub Resent : Client → Client → Type 0
Resent s s' =
    (s'.handshake_retrans ≡ suc s.handshake_retrans)
    × (s'.packet.xdp_segs ≡ s.packet.xdp_segs)
    × SentTwo s.xdp s.packet.xdp_segs s'.xdp

-- What a tick does to a client: a second passes, and `P` holds of the new state.
abbrev pub Steps : (Xdp → Xdp) → (Client → Client → Type 0) → Client → (Client → Type 0) → Type 0
Steps kernel R s P =
    (s' : Client) × (client_tick 1 kernel s ≡ some s')
    × (s'.global_time ≡ u64 (s.global_time + timer_step))
    × R s s'
    × P s'

module _ (kernel : Xdp → Xdp) {k n c r t left p : ℕ} {q : Queue} {s : Client} where
  -- No signal: the wheel turns.
  pub quiet :
      Held k c r t left p q s
      → (w' : Wheel) → tick_ringtimer 1 s.timer ≡ some ([], w')
      → w'.max ≡ s.timer.max
      → w'.current ≡ (s.timer.current + 1) % s.timer.max
      → Fires k q 1 p n w'
      → Steps kernel Quiet s (Waiting k n ((c + 1) % slots) r t left)
  unfolding client_tick on_signals
  quiet v w' e m at next = (
    record s { timer = w'; global_time = u64 (s.global_time + timer_step) },
    rw e refl,
    refl,
    (refl, refl),
    (
      p,
      q,
      record {
        slots_eq = m ∙ v.slots_eq;
        at_slot = at ∙ rw (v.slots_eq, v.at_slot) refl;
        in_array = omega arith;
        not_null = v.not_null;
        others = v.others;
        room = v.room;
        count = v.count;
        interval = v.interval;
        started = v.started;
        bounded = v.bounded;
        sends = v.sends;
      },
      next,
    ),
  )

-- The signal: the client sends its packet again and sets the timer to the next interval.
pub expired :
    (kernel : Xdp → Xdp) {k c r t left p : ℕ} {q : Queue} {s : Client}
    → Held k c r t (suc left) p q s
    → r ≤ 10
    → (w' : Wheel) → tick_ringtimer 1 s.timer ≡ some (u32 1 ∷ [], w')
    → IsWheel k (Queue.push (2 ^ k) q (p, 64)).1 w'
    → IsIdle w'
    → w'.max ≡ s.timer.max
    → w'.current ≡ (s.timer.current + 1) % s.timer.max
    → Steps kernel Resent s
        (Waiting k (delay ((c + 1) % slots) (doubled t)) ((c + 1) % slots) (suc r) (doubled t) left)
unfolding client_tick on_signals
expired kernel {k} {c} {r} {t} {left} {p} {q} {s} v few w' e wheel idle m at =
    let (p₂, l, q₂, shape, np, others, len) = rotate q p v.not_null v.others in
    let filled : IsWheel k ((p₂, l) ∷ q₂) w' =
      subst (λ q. IsWheel k q w') (push-room k p q v.room ∙ shape) wheel in
    let here : w'.current ≡ (c + 1) % slots = at ∙ rw (v.slots_eq, v.at_slot) refl in
    let size : w'.max ≡ slots = m ∙ v.slots_eq in
    let t' : ℕ = min (u64 (s.t1_timer * 2)) 60 in
    let next : t' ≡ doubled t = omega (arith, v.interval, v.bounded) in
    let (w₂, run, max₂, cur₂, fires) =
      set_timer t' filled idle np size (omega (arith, next, v.started)) (omega arith) in
    let (pkt, x, sent, sends, same, out) = eth_send_sctp-CanSend kernel v.sends in
    (
      record s {
        timer = w₂;
        t1_timer = t';
        handshake_retrans = u64 (s.handshake_retrans + 1);
        global_time = u64 (s.global_time + timer_step);
        packet = pkt;
        xdp = x;
      },
      rw e (rw run (rw sent refl)),
      refl,
      (omega (arith, v.count), same, out),
      (
        p₂,
        q₂,
        record {
          slots_eq = max₂ ∙ size;
          at_slot = cur₂ ∙ here;
          in_array = omega arith;
          not_null = np;
          others = others;
          room = omega (arith, v.room, len);
          count = omega (arith, v.count);
          interval = next;
          started = omega (arith, v.started);
          bounded = omega arith;
          sends = sends;
        },
        subst (λ n. Fires k q₂ 1 p₂ n w₂) (rw (here, next) refl) fires,
      ),
    )
