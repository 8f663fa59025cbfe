-- ===== src/Receive/Handed.antt =====
-- What the receiving thread hands on, as a walk over two queues.
use libkpnet.Base.{
  ℕ, suc, ◌+◌, ◌^◌, ◌≤◌, ◌<◌, ◌≡◌, refl, sym, ap, ◌∙◌, subst, inl, inr, arith, Bool, Bool-cases,
  Option, none, some, List, [], ◌∷◌, ◌++◌, length, length-append, map, if◌then◌else◌,
}
use libkpnet.Wire.{overwrite}
use libkpnet.Crc.{Host}
use libkpnet.Checks.Verify.{sctp_check_checksums}
use libkpnet.Ring.{Ringbuf}
use libkpnet.Ring.Queue.{Queue}
use libkpnet.Ring.Queue
use mathlib.Core.Option.{some-injective}
use libkpnet.Ring.Refine.{Holds, push_fits, pop_refines, popped_at}
use libkpnet.Receive.{
  got, Rx, goes_on, begun, going_on, then_recv, popped, pushed, next_buffer, set_mem, take_buffer,
  hand_over, checked, filled, on_recv, recv_loop, recv_sctp_packet,
}

-- The buffer being filled, the free ones, and what was handed on, oldest first.
pub record Walk : Type 0 where
  pub buffer : ℕ
  pub free : Queue
  pub handed : Queue
  pub mem : ℕ → List ℕ

-- A packet that passes the checks is handed on with its size, and the next free buffer is taken.
abbrev pub next_free : ℕ → Walk → (free : Queue) → Option Walk
next_free size w [] = none
next_free size w ((p, plen) ∷ free) =
    some (record w { buffer = p; free = free; handed = w.handed ++ (w.buffer, size) ∷ [] })

abbrev pub stepped : Host → Walk → List ℕ → Option Walk
stepped h w bytes =
    let (ok, p) = sctp_check_checksums h (overwrite bytes (w.mem w.buffer)) (length bytes) in
    let w' = record w { mem = set_mem w.mem w.buffer p } in
    if ok then next_free (length bytes) w' w.free else some w'

abbrev pub and_then : (Walk → Option Walk) → Option Walk → Option Walk
and_then rest none = none
and_then rest (some w) = rest w

unfoldable pub walk : Host → List (List ℕ) → Walk → Option Walk
walk h [] w = some w
walk h (bytes ∷ ps) w = and_then (walk h ps) (stepped h w bytes)

abbrev pub walk_at : Rx → (free handed : Queue) → Walk
walk_at s free handed = record { buffer = s.buffer; free = free; handed = handed; mem = s.mem }

-- The thread stands where the walk does.
abbrev pub Shows : (k j : ℕ) → Walk → Rx → Type 0
Shows k j w s = (w ≡ walk_at s w.free w.handed) × Holds k w.free s.allocator × Holds j w.handed s.rb

-- A buffer is taken in the first round where one is free.
taken_first :
    {k : ℕ} {p plen : ℕ} {free : Queue} (fuel : ℕ) (others : Rx → Rx) (s : Rx)
    → Holds k ((p, plen) ∷ free) s.allocator
    → (ring : Ringbuf) × (take_buffer (suc fuel) others s
        ≡ some (record s { allocator = ring; buffer = p }))
      × Holds k free ring
unfolding take_buffer Queue.pop
taken_first fuel others s h =
    let (c, ring, e, shown, h') = pop_refines 0 h in
    let (i, same, at) = popped_at ring c shown in
    (
      ring,
      ap (popped (take_buffer fuel others) others s)
            (e ∙ ap (λ (x : Option ℕ). some (x, ring)) same)
          ∙ ap (λ (x : ℕ × ℕ). some (record s { allocator = ring; buffer = x.0 })) at,
      h',
    )

handed_first :
    {j : ℕ} {q : Queue} (fuel : ℕ) (others : Rx → Rx) (size : ℕ) (s : Rx)
    → Holds j q s.rb
    → length q < 2 ^ j
    → (ring : Ringbuf) × (hand_over (suc fuel) others size s ≡ some (record s { rb = ring }))
      × Holds j (q ++ (s.buffer, size) ∷ []) ring
unfolding hand_over
handed_first fuel others size s h room =
    let (ring, e, h') = push_fits 0 s.buffer size h room in
    (ring, ap (pushed (hand_over fuel others size) others s) e, h')

first_step :
    (rest : Walk → Option Walk) (x : Option Walk) {w : Walk}
    → and_then rest x ≡ some w
    → (w₁ : Walk) × (x ≡ some w₁) × (rest w₁ ≡ some w)
first_step rest none e = cc
first_step rest (some w₁) e = (w₁, refl, e)

module _ (h : Host) (fuel : ℕ) (others : Rx → Rx) (k j : ℕ) where
  abbrev HandsOn : Rx → (size : ℕ) → (handed : Queue) → Walk → Type 0
  HandsOn s size handed w =
      (s' : Rx) × (next_buffer (suc fuel) others (hand_over (suc fuel) others size s) ≡ some s')
      × Shows k j w s'
      × (length w.handed ≤ length handed + 1)

  -- A packet that passes the checks.
  hands_on :
      (s : Rx) (free handed : Queue) (w : Walk) (size : ℕ)
      → Holds k free s.allocator
      → Holds j handed s.rb
      → length handed < 2 ^ j
      → next_free size (walk_at s free handed) free ≡ some w
      → HandsOn s size handed w
  hands_on s [] handed w size v u room e = cc
  hands_on s ((p, plen) ∷ free) handed w size v u room e =
      let (rb, pushes, u') = handed_first fuel others size s u room in
      let s₁ : Rx = record s { rb = rb } in
      let (allocator, pops, v') = taken_first fuel others s₁ v in
      subst (HandsOn s size handed) (some-injective _ _ e) (
        record s₁ { allocator = allocator; buffer = p },
        ap (next_buffer (suc fuel) others) pushes ∙ pops,
        (refl, v', u'),
        omega (arith, length-append handed ((s.buffer, size) ∷ [])),
      )

  abbrev Rounds : Rx → (bytes : List ℕ) → (handed : Queue) → Walk → Type 0
  Rounds s bytes handed w =
      (s' : Rx) × (on_recv h (suc fuel) others s (got bytes) ≡ some (goes_on s'))
      × Shows k j w s'
      × (length w.handed ≤ length handed + 1)

  abbrev Branch : Rx → (bytes : List ℕ) (free handed : Queue) → Walk → Bool → Type 0
  Branch s bytes free handed w t =
      let w' = walk_at (filled h s bytes) free handed in
      (if t then next_free (length bytes) w' free else some w') ≡ some w

  -- One packet.
  one_round :
      (s : Rx) (free handed : Queue) (w : Walk) (bytes : List ℕ)
      → Holds k free s.allocator
      → Holds j handed s.rb
      → length handed < 2 ^ j
      → stepped h (walk_at s free handed) bytes ≡ some w
      → Rounds s bytes handed w
  unfolding on_recv
  one_round s free handed w bytes v u room e = elim (Bool-cases (checked h s bytes).0) [
    | inl ok ↦
        let (s', run, shows, bound) =
          hands_on (filled h s bytes) free handed w (length bytes) v u room
            (subst (Branch s bytes free handed w) ok e) in
        (s', rw ok (ap going_on run), shows, bound)
    | inr bad ↦
        let e' : some (walk_at (filled h s bytes) free handed) ≡ some w =
          subst (Branch s bytes free handed w) bad e in
        subst (Rounds s bytes handed) (some-injective _ _ e')
          (filled h s bytes, rw bad refl, (refl, v, u), omega arith)
  ]

  -- The loop, with a buffer taken.
  recv_loop-Shows :
      (ps : List (List ℕ)) (s : Rx) (free handed : Queue) (w : Walk)
      → Holds k free s.allocator
      → Holds j handed s.rb
      → length handed + length ps ≤ 2 ^ j
      → walk h ps (walk_at s free handed) ≡ some w
      → (s' : Rx) × (recv_loop h (suc fuel) others (map got ps) s ≡ some (goes_on s'))
        × Shows k j w s'
  unfolding recv_loop walk
  recv_loop-Shows [] s free handed w v u room e =
      subst (λ w. (s' : Rx) × (some (goes_on s) ≡ some (goes_on s')) × Shows k j w s')
        (some-injective _ _ e) (s, refl, (refl, v, u))
  recv_loop-Shows (bytes ∷ ps) s free handed w v u room e =
      let (w₁, e₁, e₂) = first_step (walk h ps) (stepped h (walk_at s free handed) bytes) e in
      let (s₁, run, (same, v₁, u₁), bound) =
        one_round s free handed w₁ bytes v u (omega arith) e₁ in
      let (s₂, run', shows) =
        recv_loop-Shows ps s₁ w₁.free w₁.handed w v₁ u₁ (omega arith)
          (ap (walk h ps) (sym same) ∙ e₂) in
      (s₂, ap (then_recv (recv_loop h (suc fuel) others (map got ps))) run ∙ run', shows)

  -- Where `recv` gives one packet after another, the ring handed to has room for all of them, and a
  -- buffer is free whenever one is needed, the thread hands on the packets that pass the checks, in
  -- their order, each with its size and in the buffer that the allocator gave for it, and drops the
  -- others, whose buffers take the next packet; it never waits.
  pub recv_sctp_packet-Shows :
      (ps : List (List ℕ)) (s : Rx) (p plen : ℕ) (free handed : Queue) (w : Walk)
      → Holds k ((p, plen) ∷ free) s.allocator
      → Holds j handed s.rb
      → length handed + length ps ≤ 2 ^ j
      → walk h ps (walk_at (record s { buffer = p }) free handed) ≡ some w
      → (s' : Rx) × (recv_sctp_packet h (suc fuel) others (map got ps) s ≡ some (goes_on s'))
        × Shows k j w s'
  unfolding recv_sctp_packet
  recv_sctp_packet-Shows ps s p plen free handed w v u room e =
      let (ring, pops, v') = taken_first fuel others s v in
      let (s', run, shows) =
        recv_loop-Shows ps (record s { allocator = ring; buffer = p }) free handed w v' u room e in
      (s', ap (begun (recv_loop h (suc fuel) others (map got ps))) pops ∙ run, shows)
