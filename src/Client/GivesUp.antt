-- ===== src/Client/GivesUp.antt =====
-- When the client gives up.
use libkpnet.Base.{
  ℕ, zero, suc, ◌+◌, ◌*◌, ◌%◌, ◌^◌, ◌≤◌, ◌<◌, ◌≡◌, refl, ap, subst, arith, some, List, [], ◌∷◌, u64,
  sub_u64, lt→ltb, le→ltb, le→leb, gt→leb, dec_lt,
}
use libkpnet.Xdp.{Xdp}
use libkpnet.Ring.Queue.{Queue}
use libkpnet.Timer.Single.{Fires, now, later}
use libkpnet.Client.{Client, timer_step, max_retrans, client_tick, catch_up, client_loop}
use libkpnet.Client.Waits.{slots, delay, doubled, Quiet, Resent, Held, Waiting, quiet, expired}

-- A second of the loop returns, with the clock of the client moved on, and `R` says what it did.
abbrev pub Second : (Xdp → Xdp) → (R : Client → Client → Type 0) → Client → Client → Type 0
Second kernel R s s' =
    (client_tick 1 kernel s ≡ some s')
    × (s.handshake_retrans ≤ max_retrans)
    × (s'.global_time ≡ u64 (s.global_time + timer_step))
    × R s s'

-- The client sends its packet again in just these seconds, each counted from the one before, and
-- then the counter is at its end. Every second until then returns.
pub data GivesUp (kernel : Xdp → Xdp) : List ℕ → Client → Type 0 where
  done : {s : Client} → s.handshake_retrans ≡ suc max_retrans → GivesUp kernel [] s
  wait :
      {n : ℕ} {ns : List ℕ} {s : Client} (s' : Client)
      → Second kernel Quiet s s'
      → GivesUp kernel (n ∷ ns) s'
      → GivesUp kernel (suc n ∷ ns) s
  resend :
      {ns : List ℕ} {s : Client} (s' : Client)
      → Second kernel Resent s s'
      → GivesUp kernel ns s'
      → GivesUp kernel (1 ∷ ns) s

abbrev pub total : List ℕ → ℕ
total [] = 0
total (n ∷ ns) = n + total ns

-- The same for the number of seconds alone.
data Lasts (kernel : Xdp → Xdp) : ℕ → Client → Type 0 where
  over : {s : Client} → s.handshake_retrans ≡ suc max_retrans → Lasts kernel 0 s
  tick :
      {n : ℕ} {s : Client} (s' : Client)
      → client_tick 1 kernel s ≡ some s'
      → s.handshake_retrans ≤ max_retrans
      → s'.global_time ≡ u64 (s.global_time + timer_step)
      → Lasts kernel n s'
      → Lasts kernel (suc n) s

GivesUp-Lasts :
    {kernel : Xdp → Xdp} {ns : List ℕ} {s : Client}
    → GivesUp kernel ns s
    → Lasts kernel (total ns) s
GivesUp-Lasts (done e) = over e
GivesUp-Lasts {kernel} {s = s} (wait {n} {ns} s' (run, few, time, _) g) =
    subst (λ m. Lasts kernel m s) {x = suc (n + total ns)} (omega arith)
      (tick s' run few time (GivesUp-Lasts g))
GivesUp-Lasts {kernel} {s = s} (resend {ns} s' (run, few, time, _) g) =
    subst (λ m. Lasts kernel m s) {x = suc (total ns)} (omega arith)
      (tick s' run few time (GivesUp-Lasts g))

-- The seconds of `left` expirations, for a timer of `t` ticks that was set at `c`.
unfoldable pub gaps : (left c t : ℕ) → List ℕ
gaps zero c t = []
gaps (suc left) c t = suc (delay c t) ∷ gaps left ((c + delay c t + 1) % slots) (doubled t)

module _ (kernel : Xdp → Xdp) where
  one_expiration :
      {k r t left : ℕ} {ms : List ℕ} (n : ℕ) {c p : ℕ} {q : Queue} {s : Client}
      → Held k c r t (suc left) p q s
      → r ≤ 10
      → Fires k q 1 p n s.timer
      → ((s' : Client) (c' : ℕ)
          → c' ≡ (c + n + 1) % slots
          → Waiting k (delay c' (doubled t)) c' (suc r) (doubled t) left s'
          → GivesUp kernel ms s')
      → GivesUp kernel (suc n ∷ ms) s
  one_expiration zero {c} v few (now w' e wheel idle max cur) go =
      let (s', run, time, again, w) = expired kernel v few w' e wheel idle max cur in
      resend s' (run, omega (arith, v.count), time, again) (go s' ((c + 1) % slots) (omega arith) w)
  one_expiration (suc n) v few (later w' e max cur f) go =
      let (s', run, time, same, (_, _, v', f')) = quiet kernel v w' e max cur f in
      wait s' (run, omega (arith, v.count), time, same)
        (one_expiration n v' few f' (λ s' c' same. go s' c' (omega (arith, same))))

  pub Waiting-GivesUp :
      {k : ℕ} (left : ℕ) {c r t : ℕ} {s : Client}
      → r + left ≡ 11
      → Waiting k (delay c t) c r t left s
      → GivesUp kernel (gaps left c t) s
  unfolding gaps
  Waiting-GivesUp zero e (_, _, v, f) = done (omega (arith, v.count))
  Waiting-GivesUp (suc left) {c} {r} {t} e (p, q, v, f) =
      one_expiration (delay c t) v (omega arith) f (λ s' c' same w.
        subst (λ c'. GivesUp kernel (gaps left c' (doubled t)) s') same
          (Waiting-GivesUp left (omega arith) w))

-- What `update_time` returns: it does not go back, and the loop reads it at least once a second.
pub record IsClock (clock : ℕ → ℕ) : Type 0 where
  pub forward : (i : ℕ) → clock i ≤ clock (suc i)
  pub often : (i : ℕ) → clock (suc i) ≤ clock i + timer_step
  pub word : (i : ℕ) → clock i < 2 ^ 64

abbrev pub Stops : (Xdp → Xdp) → (ℕ → ℕ) → (rounds i : ℕ) → Client → Type 0
Stops kernel clock rounds i s =
    (s' : Client) × (client_loop rounds 2 1 kernel clock i s ≡ some s')
    × (s'.handshake_retrans ≡ suc max_retrans)

module _ (kernel : Xdp → Xdp) where
  wait_round :
      {now : ℕ} (s : Client)
      → s.global_time ≤ now
      → now < s.global_time + timer_step
      → now < 2 ^ 64
      → (fuel : ℕ) → catch_up (suc fuel) 1 kernel now s ≡ some s
  unfolding catch_up
  wait_round {now} s lo hi word fuel =
      rw (gt→leb timer_step (sub_u64 now s.global_time) (omega arith)) refl

  tick_round :
      {now : ℕ} (s s' : Client)
      → s.global_time + timer_step ≤ now
      → now < s.global_time + 2 * timer_step
      → now < 2 ^ 64
      → client_tick 1 kernel s ≡ some s'
      → s'.global_time ≡ u64 (s.global_time + timer_step)
      → catch_up 2 1 kernel now s ≡ some s'
  unfolding catch_up
  tick_round {now} s s' lo hi word e time =
      rw (le→leb timer_step (sub_u64 now s.global_time) (omega arith))
        (rw e (wait_round s' (omega (arith, time)) (omega (arith, time)) word 0))

  all_done : {n : ℕ} {s : Client} → Lasts kernel n s → n ≡ 0 → s.handshake_retrans ≡ suc max_retrans
  all_done (over e) z = e
  all_done (tick s' run few time g) z = absurd (omega (arith, z))

  -- The loop is over once the clock has come so far.
  Lasts-Stops :
      {clock : ℕ → ℕ} {n i : ℕ} {s : Client} (rounds : ℕ)
      → IsClock clock
      → Lasts kernel n s
      → s.global_time ≤ clock i
      → clock i < s.global_time + 2 * timer_step
      → s.global_time + n * timer_step ≤ clock (i + rounds)
      → Stops kernel clock (suc (suc rounds)) i s
  unfolding client_loop
  Lasts-Stops {s = s} rounds v (over e) lo hi reach =
      (s, rw (lt→ltb max_retrans s.handshake_retrans (omega (arith, e))) refl, e)
  Lasts-Stops {clock} {i = i} {s = s} zero v (tick s' run few time g) lo hi reach =
      let now : s.global_time + timer_step ≤ clock i =
        omega (arith, ap clock {x = i + 0} {y = i} (omega arith)) in
      let over = all_done g (omega (arith, ap clock {x = i + 0} {y = i} (omega arith))) in
      rw (le→ltb max_retrans s.handshake_retrans few, tick_round s s' now hi (v.word i) run time)
        (s', rw (lt→ltb max_retrans s'.handshake_retrans (omega (arith, over))) refl, over)
  Lasts-Stops {clock} {i = i} {s = s} (suc rounds) v (tick s' run few time g) lo hi reach =
      let same : clock (i + suc rounds) ≡ clock (suc i + rounds) = ap clock (omega arith) in
      let forward = v.forward i in
      let often = v.often i in
      rw (le→ltb max_retrans s.handshake_retrans few)
        (elim (dec_lt (clock i) (s.global_time + timer_step)) [
          | yes p ↦ rw (wait_round s lo p (v.word i) 1) (
              Lasts-Stops rounds v (tick s' run few time g) (omega arith) (omega arith)
                (omega (arith, same, reach)))
          | no p ↦ rw (tick_round s s' (omega arith) hi (v.word i) run time) (
              Lasts-Stops rounds v g (omega (arith, time, v.word i)) (omega (arith, time, v.word i))
                (omega (arith, same, reach, time, v.word i)))
        ])

  pub GivesUp-Stops :
      {clock : ℕ → ℕ} {ns : List ℕ} {i : ℕ} {s : Client} (rounds : ℕ)
      → IsClock clock
      → GivesUp kernel ns s
      → s.global_time ≤ clock i
      → clock i < s.global_time + 2 * timer_step
      → s.global_time + total ns * timer_step ≤ clock (i + rounds)
      → Stops kernel clock (suc (suc rounds)) i s
  GivesUp-Stops rounds v g lo hi reach = Lasts-Stops rounds v (GivesUp-Lasts g) lo hi reach
