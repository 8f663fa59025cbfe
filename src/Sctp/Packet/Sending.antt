-- ===== src/Sctp/Packet/Sending.antt =====
-- A packet that was put together is sent as a whole.
use libkpnet.Base.{
  ℕ, zero, suc, ◌+◌, ◌≤◌, ◌≡◌, refl, sym, ap, ◌∙◌, arith, min, Bool-cases, inl, inr, none, some,
  List, [], ◌∷◌, length, length-set, leb, leb→le, ne→==,
}
use libkpnet.Xdp.{Xdp, xdp_max_segs, ring_size, xdp_tx}
use libkpnet.Xdp.Window.{IsXdpRing, used}
use libkpnet.Xdp.Produce.{Sent, xdp_tx_all_or_nothing}
use libkpnet.Sctp.Packet.{
  Packet, sctp_prepare_packet, sctp_push_to_xdp_segs, send_loop, eth_send_sctp,
}

-- The builders' pushes in order; what they return is not looked at.
abbrev pub pushes : Packet → List ℕ → Packet
pushes p [] = p
pushes p (len ∷ lens) = pushes (sctp_push_to_xdp_segs p len).1 lens

pub record IsPrepared (p : Packet) : Type 0 where
  pub storage : length p.xdp_segs ≡ xdp_max_segs
  pub started : 1 ≤ p.xdp_seg_count
  pub within : p.xdp_seg_count ≤ xdp_max_segs

push-IsPrepared :
    (p : Packet) (len : ℕ)
    → IsPrepared p
    → IsPrepared (sctp_push_to_xdp_segs p len).1
      × ((sctp_push_to_xdp_segs p len).1.xdp_seg_count ≡ min xdp_max_segs (p.xdp_seg_count + 1))
unfolding sctp_push_to_xdp_segs
push-IsPrepared p len v = elim (Bool-cases (leb xdp_max_segs p.xdp_seg_count)) [
  | inl e ↦ rw e (v, omega (arith, v.within, leb→le _ _ e))
  | inr e ↦ rw e (
    record {
      storage = length-set p.xdp_segs p.xdp_seg_count _ ∙ v.storage;
      started = omega arith;
      within = ground (arith, e);
    },
    ground (arith, e, v.within),
  )
]

pushes-IsPrepared :
    (lens : List ℕ) (p : Packet)
    → IsPrepared p
    → IsPrepared (pushes p lens)
      × ((pushes p lens).xdp_seg_count ≡ min xdp_max_segs (p.xdp_seg_count + length lens))
pushes-IsPrepared [] p v = (v, omega (arith, v.within))
pushes-IsPrepared (len ∷ lens) p v =
    let (w, e) = push-IsPrepared p len v in
    let (z, f) = pushes-IsPrepared lens (sctp_push_to_xdp_segs p len).1 w in
    (z, omega (arith, e, f))

prepared : (p : Packet) → length p.xdp_segs ≡ xdp_max_segs → IsPrepared (sctp_prepare_packet p)
unfolding sctp_prepare_packet
prepared p h = record {
  storage = length-set p.xdp_segs 0 _ ∙ h;
  started = omega arith;
  within = omega arith;
}

pub one_round :
    (x : Xdp) (segs : List (ℕ × ℕ)) (n : ℕ) (kernel : Xdp → Xdp)
    → 1 ≤ n
    → Sent x segs n (xdp_tx x segs n)
    → send_loop 1 kernel segs n x ≡ some (xdp_tx x segs n).1
unfolding send_loop
one_round x segs n kernel pos (e, _, _, _, _, _) =
    rw (ne→== (xdp_tx x segs n).0 0 (omega (arith, e))) refl

-- Once `sctp_prepare_packet` has begun a packet and any number of headers were pushed, the arrays
-- of 16 segments do not overflow, and where the TX ring has room for the packet, `eth_send_sctp`
-- is done in its first round and has sent all the segments.
pub eth_send_sctp-Sent :
    (p : Packet) (lens : List ℕ) (x : Xdp) (kernel : Xdp → Xdp)
    → length p.xdp_segs ≡ xdp_max_segs
    → IsXdpRing x.tx
    → used x.tx + 1 + length lens ≤ ring_size
    → let q = pushes (sctp_prepare_packet p) lens in
      IsPrepared q
      × (n : ℕ) × (x' : Xdp) × ((eth_send_sctp 1 kernel q x).1 ≡ some x')
      × Sent x q.xdp_segs q.xdp_seg_count (n, x')
unfolding eth_send_sctp sctp_prepare_packet
eth_send_sctp-Sent p lens x kernel h v room =
    let q = pushes (sctp_prepare_packet p) lens in
    let (w, e) = pushes-IsPrepared lens (sctp_prepare_packet p) (prepared p h) in
    elim (xdp_tx_all_or_nothing x q.xdp_segs q.xdp_seg_count v
      (omega (arith, w.within, w.storage))) [
        | inl (_, _, s) ↦ (w, _, _, one_round x q.xdp_segs q.xdp_seg_count kernel w.started s, s)
        | inr (_, _, why) ↦ absurd (ground (arith, w.started, w.within, e, why))
      ]

tx_nothing : (x : Xdp) (segs : List (ℕ × ℕ)) → xdp_tx x segs 0 ≡ (0, x)
unfolding xdp_tx
tx_nothing x segs = refl

-- With no segment, `eth_send_sctp` never returns, whatever the kernel does.
pub eth_send_sctp-spins :
    (fuel : ℕ) (kernel : Xdp → Xdp) (p : Packet) (x : Xdp)
    → p.xdp_seg_count ≡ 0
    → (eth_send_sctp fuel kernel p x).1 ≡ none
unfolding eth_send_sctp send_loop
eth_send_sctp-spins zero kernel p x e = refl
eth_send_sctp-spins (suc fuel) kernel p x e =
    rw (e, tx_nothing x p.xdp_segs)
      (ap (λ n. send_loop fuel kernel p.xdp_segs n (kernel x)) (sym e)
        ∙ eth_send_sctp-spins fuel kernel p (kernel x) e)
