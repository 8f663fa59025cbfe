-- ===== src/Client/Starts.antt =====
-- The whole of the client's handshake when nobody answers.
use Prim.{tt}
use mathlib.Core.Option.{some-injective}
use libkpnet.Base.{
  ℕ, suc, ◌+◌, ◌*◌, ◌≤◌, ◌<◌, ◌≡◌, refl, sym, ap, ◌∙◌, subst, arith, some, true, List, [], ◌∷◌,
  length,
}
use libkpnet.Xdp.{Xdp, xdp_max_segs, ring_size}
use libkpnet.Xdp.Window.{IsXdpRing, used}
use libkpnet.Ring.{Cell, Ringbuf}
use libkpnet.Ring.Queue.{Queue}
use libkpnet.Ring.Refine.{Holds}
use libkpnet.Ring.Allocator.{
  create_allocator, create_allocator-Holds, AllThere, blocks, block_bytes,
}
use libkpnet.Sctp.{Ulp}
use libkpnet.Sctp.Build.{Draws}
use libkpnet.Sctp.Packet.{Packet}
use libkpnet.Timer.{Callback, Wheel, create_ringtimer, insert_ringtimer}
use libkpnet.Timer.Single.{IsWheel, IsIdle, Fires}
use libkpnet.Timer.Insert.{create_ringtimer-IsIdle}
use libkpnet.Client.{Client, timer_step, timed, t1_init_expire, client_start}
use libkpnet.Client.Sends.{CanSend, SentTwo, build_init-CanSend}
use libkpnet.Client.Waits.{delay, NonNull, Waiting, set_timer}
use libkpnet.Client.GivesUp.{GivesUp, gaps, IsClock, Stops, Waiting-GivesUp, GivesUp-Stops}

blocks-NonNull : (plen : ℕ) (ms : List ℕ) → AllThere ms → NonNull (blocks plen ms)
blocks-NonNull plen [] h = tt
blocks-NonNull plen (m ∷ ms) (h, hs) = (h, blocks-NonNull plen ms hs)

length-blocks : (plen : ℕ) (ms : List ℕ) → length (blocks plen ms) ≡ length ms
length-blocks plen [] = refl
length-blocks plen (m ∷ ms) = ap suc (length-blocks plen ms)

-- The seconds from the first INIT until the client gives up.
abbrev pub patience : ℕ
patience = 663

-- The seconds between one packet and the next.
abbrev pub pauses : List ℕ
pauses = 1 ∷ 2 ∷ 4 ∷ 8 ∷ 16 ∷ 32 ∷ 60 ∷ 60 ∷ 60 ∷ 360 ∷ 60 ∷ []

all_pauses : gaps 11 0 1 ≡ pauses
unfolding gaps delay
all_pauses = refl

-- The client has sent its packet and is in its loop, where it sends the packet again after each of
-- the pauses.
abbrev pub Started : (Xdp → Xdp) → Draws → Ulp → (cursor now : ℕ) → Wheel → Packet → Xdp → Type 0
Started kernel d ulp cursor now timer p x =
    (s : Client) × (client_start 1 kernel d ulp cursor now timer p x ≡ some s)
    × (s.global_time ≡ now)
    × SentTwo x s.packet.xdp_segs s.xdp
    × GivesUp kernel pauses s

-- The first timer on a new wheel.
first_wait :
    (now : ℕ) {timer : Wheel} {p : Packet} {x : Xdp} (q : Queue)
    → IsWheel 8 q timer
    → IsIdle timer
    → timer.max ≡ 300
    → timer.current ≡ 0
    → NonNull q
    → length q ≡ 256
    → CanSend 11 p x
    → (s : Client) × (timed now p x (insert_ringtimer t1_init_expire 1 timer) ≡ some s)
      × (s.global_time ≡ now)
      × (s.packet ≡ p)
      × (s.xdp ≡ x)
      × Waiting 8 (delay 0 1) 0 0 1 11 s
first_wait now [] v idle size at nn len sends = absurd (omega (arith, len))
first_wait now {timer} {p} {x} ((m, l) ∷ q) v idle size at (np, nn) len sends =
    let (w, run, max, cur, fires) = set_timer 1 v idle np size (omega arith) (omega arith) in
    (
      _,
      rw run refl,
      refl,
      refl,
      refl,
      (
        m,
        q,
        record {
          slots_eq = max ∙ size;
          at_slot = cur ∙ at;
          in_array = omega arith;
          not_null = np;
          others = nn;
          room = omega (arith, len);
          count = refl;
          interval = refl;
          started = omega arith;
          bounded = omega arith;
          sends = sends;
        },
        subst (λ c. Fires 8 q 1 m (delay c 1) w) at fires,
      ),
    )

module _ (kernel : Xdp → Xdp) (d : Draws) (ulp : Ulp) (cursor now line : ℕ) (raw : List Cell)
    (memories : List ℕ) (heap : ℕ → Callback) (p : Packet) (x : Xdp) {allocator : Ringbuf}
    {timer : Wheel} (cells : length raw ≡ 256) (all : length memories ≡ 256)
    (there : AllThere memories)
    (memory : create_allocator line true (some raw) memories 64 256 ≡ some (some allocator))
    (wheel : create_ringtimer true true 300 allocator heap ≡ some timer)
    (segs : length p.xdp_segs ≡ xdp_max_segs) (ring : IsXdpRing x.tx)
    (room : used x.tx + 24 ≤ ring_size) where
  full : Holds 8 (blocks (block_bytes line 64) memories) allocator
  full =
      let (rb, e, h) =
        create_allocator-Holds line 8 raw memories 64 (omega arith) (omega arith) cells all there in
      subst (Holds 8 (blocks (block_bytes line 64) memories))
        (some-injective _ _ (some-injective _ _ (sym e ∙ memory))) h

  pub client_start-GivesUp : Started kernel d ulp cursor now timer p x
  unfolding client_start
  client_start-GivesUp =
      let (v, idle, size, at) =
        create_ringtimer-IsIdle 300 allocator heap (omega arith) (omega arith) full wheel in
      let (p', x', sent, sends, out) =
        build_init-CanSend kernel d ulp cursor {left = 11} p x segs ring (omega (arith, room)) in
      let (s, run, time, packet, rings, w) =
        first_wait now (blocks (block_bytes line 64) memories) v idle size at
          (blocks-NonNull (block_bytes line 64) memories there)
          (length-blocks (block_bytes line 64) memories ∙ all) sends in
      (
        s,
        rw sent run,
        time,
        rw (packet, rings) out,
        subst (λ ns. GivesUp kernel ns s) all_pauses (Waiting-GivesUp kernel 11 refl w),
      )

  -- Where all memory is there and the TX ring has room for twelve packets of two segments, the
  -- client that nobody answers comes to the end of its loop, with the counter of retransmissions at
  -- 11, on every clock of 64 bits that does not go back, is read at least once a second, is less
  -- than two seconds past the start when it is first read, and comes to 663 seconds after it.
  pub client_loop-Stops :
      {clock : ℕ → ℕ} (rounds : ℕ)
      → IsClock clock
      → now ≤ clock 0
      → clock 0 < now + 2 * timer_step
      → now + patience * timer_step ≤ clock rounds
      → (s : Client) × (client_start 1 kernel d ulp cursor now timer p x ≡ some s)
        × Stops kernel clock (suc (suc rounds)) 0 s
  client_loop-Stops {clock} rounds c lo hi reach =
      let (s, run, time, _, g) = client_start-GivesUp in
      (
        s,
        run,
        GivesUp-Stops kernel {ns = pauses} {i = 0} rounds c g (omega (arith, time))
            (omega (arith, time))
            (omega (arith, time, reach, ap clock {x = 0 + rounds} {y = rounds} (omega arith))),
      )
