-- ===== src/Sctp/Dispatch/Transitions.antt =====
-- What a packet can do to an association.
use Prim.{tt}
use libkpnet.Base.{
  ℕ, ◌+◌, ◌≡◌, refl, sym, ap, ◌∙◌, arith, subst, Bool, true, false, Bool-cases, inl, inr, Option,
  none, some, List, bswap16, ltb, leb, ◌==◌, ◌&&◌, drop,
}
use libkpnet.Wire.{get8, get16, get32, mac_bytes}
use libkpnet.Crc.{Host}
use libkpnet.Sctp.{Assoc, Net, Status, listen, init_sent, init_ack_received, established}
use libkpnet.Sctp.Build.{Draws, cmn_at, chunk_at}
use libkpnet.Sctp.Threads.{prepare_sctp_threads, thread_count}
use libkpnet.Sctp.Process.{
  Always, after, sctp_process_sctp_init, sctp_process_sctp_init_ack, sctp_process_sctp_cookie_echo,
  sctp_process_sctp_cookie_ack, echo_diff, init_ack_assoc, cookie_assoc,
}
use libkpnet.Sctp.Dispatch.{
  Chunk, init, init_ack, cookie_echo, cookie_ack, chunk_of, handle, if_ip_sctp,
}

-- The steps of the status: each needs its own chunk.
pub data Move : Status → Chunk → Status → Type 0 where
  stay : (s : Status) (c : Chunk) → Move s c s
  acked : Move init_sent init_ack init_ack_received
  done : Move init_ack_received cookie_ack established

-- A refusal leaves everything, and an acceptance makes a step.
abbrev pub Handled : Assoc → Net → Status → Chunk → Bool × Assoc × Net → Type 0
Handled a net s c (false, a', net') = (a' ≡ a) × (net' ≡ net)
Handled a net s c (true, a', net') = Move s c a'.status

after-Handled :
    (a : Assoc) (net : Net) {s : Status} {c : Chunk} (a' : Assoc) (r : Option (Bool × Net))
    → Move s c a'.status
    → Always (Handled a net s c) (after a' r)
after-Handled a net a' none m = tt
after-Handled a net a' (some (_, net')) m = m

status-threads :
    (array : Bool) (room : ℕ) (a : Assoc) → (prepare_sctp_threads array room a).1.status ≡ a.status
unfolding prepare_sctp_threads
status-threads false room a = refl
status-threads true room a = elim (Bool-cases (ltb room (thread_count a))) [
  | inl e ↦ rw e refl
  | inr e ↦ rw e refl
]

module _ (h : Host) (d : Draws) (a : Assoc) (net : Net) where
  init_ack-Handled :
      (packet : List ℕ) (plen : ℕ)
      → Always (Handled a net init_sent init_ack) (sctp_process_sctp_init_ack h a net packet plen)
  unfolding sctp_process_sctp_init_ack init_ack_assoc
  init_ack-Handled packet plen = elim (Bool-cases (leb (bswap16 plen) 24)) [
    | inl e ↦ rw e (refl, refl)
    | inr e ↦ rw e (after-Handled a net (init_ack_assoc a packet (bswap16 plen)) _ acked)
  ]

  cookie_echo-Handled :
      (packet : List ℕ) (plen : ℕ)
      → a.status ≡ listen
      → Always
          (Handled a net listen cookie_echo)
          (sctp_process_sctp_cookie_echo h d a net packet plen)
  unfolding sctp_process_sctp_cookie_echo cookie_assoc
  cookie_echo-Handled packet plen s = elim (Bool-cases (ltb (bswap16 plen) 60)) [
    | inl e ↦ rw e (refl, refl)
    | inr e ↦ rw e (elim (Bool-cases (echo_diff h (drop 4 packet) == 0)) [
      | inl e ↦ rw e (
          after-Handled a net _ _ (
            subst (λ t. Move listen cookie_echo t) (sym (status-threads d.array d.room _ ∙ s))
              (stay listen cookie_echo)))
      | inr e ↦ rw e (refl, refl)
    ])
  ]

  handle-Handled :
      (c : Chunk) (s : Status) (packet : List ℕ)
      → a.status ≡ s
      → Always (Handled a net s c) (handle h d c s a net packet)
  unfolding handle sctp_process_sctp_init sctp_process_sctp_cookie_ack
  handle-Handled init listen packet e =
      after-Handled a net _ _ (subst (λ t. Move listen init t) (sym e) (stay listen init))
  handle-Handled init_ack init_sent packet e = init_ack-Handled _ (get16 packet (chunk_at + 2))
  handle-Handled cookie_echo listen packet e = cookie_echo-Handled _ (get16 packet (chunk_at + 2)) e
  handle-Handled cookie_ack init_ack_received packet e =
      elim (Bool-cases (ltb (bswap16 (get16 packet (chunk_at + 2))) 4)) [
        | inl e ↦ rw e (refl, refl)
        | inr e ↦ rw e (
            subst (λ t. Move init_ack_received cookie_ack t) (sym (status-threads d.array d.room _))
              done)
      ]
  handle-Handled c s packet e = (refl, refl)

  if_ip_sctp-Always :
      (packet : List ℕ)
      → Always
          (Handled a net a.status (chunk_of (get8 packet chunk_at)))
          (if_ip_sctp h d (some packet) a net)
  unfolding if_ip_sctp
  if_ip_sctp-Always packet =
      elim (Bool-cases (
        a.base
        && a.state
        && get32 packet (mac_bytes + 16) == a.ulp.src_ip
        && a.ulp.src_port == bswap16 (get16 packet (cmn_at + 2)))) [
          | inl e ↦ rw e (handle-Handled _ a.status packet refl)
          | inr e ↦ rw e (refl, refl)
        ]

-- Whatever packet arrives, where `if_ip_sctp` returns: if it returns NULL, the association, the
-- rings and the buffers are as they were, and if not, the status has stayed or made one of two
-- steps: INIT_SENT to INIT_ACK_RECEIVED by an INIT ACK, INIT_ACK_RECEIVED to ESTABLISHED by a
-- COOKIE ACK.
pub if_ip_sctp-Handled :
    (h : Host) (d : Draws) (packet : List ℕ) (a a' : Assoc) (net net' : Net) (b : Bool)
    → if_ip_sctp h d (some packet) a net ≡ some (b, a', net')
    → Handled a net a.status (chunk_of (get8 packet chunk_at)) (b, a', net')
if_ip_sctp-Handled h d packet a a' net net' b e =
    subst (Always (Handled a net a.status (chunk_of (get8 packet chunk_at)))) e
      (if_ip_sctp-Always h d a net packet)

stays : {s s' : Status} {c : Chunk} → Move s c s' → s ≡ listen → s' ≡ listen
stays (stay s c) e = e
stays acked e = absurd (ground (arith, e))
stays done e = absurd (ground (arith, e))

kept_listen :
    (a : Assoc) (net : Net) (c : Chunk) (b : Bool) (a' : Assoc) (net' : Net)
    → Handled a net a.status c (b, a', net')
    → a.status ≡ listen
    → a'.status ≡ listen
kept_listen a net c false a' net' (e, _) l = ap (λ x. x.status) e ∙ l
kept_listen a net c true a' net' m l = stays m l

-- A listening association never leaves LISTEN: no packet, a valid COOKIE ECHO included, makes a
-- server's association ESTABLISHED.
pub listen_stays :
    (h : Host) (d : Draws) (packet : List ℕ) (a a' : Assoc) (net net' : Net) (b : Bool)
    → a.status ≡ listen
    → if_ip_sctp h d (some packet) a net ≡ some (b, a', net')
    → a'.status ≡ listen
listen_stays h d packet a a' net net' b l e =
    kept_listen a net _ b a' net' (if_ip_sctp-Handled h d packet a a' net net' b e) l
