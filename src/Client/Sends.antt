-- ===== src/Client/Sends.antt =====
-- How often the client can send its packet.
use libkpnet.Base.{
  ℕ, suc, ◌+◌, ◌*◌, ◌≤◌, ◌≡◌, refl, sym, ap, ◌∙◌, arith, some, List, [], ◌∷◌, length, length-append,
  length-set, length-take, take, subst, inl, inr, set,
}
use libkpnet.Xdp.{Xdp, Desc, no_desc, xdp_max_segs, ring_size, xdp_tx}
use libkpnet.Xdp.Window.{IsXdpRing, used, contents, length-read_slots}
use libkpnet.Xdp.Produce.{Sent, segments, xdp_tx_all_or_nothing}
use libkpnet.Sctp.{Ulp}
use libkpnet.Sctp.Build.{Draws}
use libkpnet.Sctp.Packet.{Packet, sctp_prepare_packet, sctp_push_to_xdp_segs, eth_send_sctp}
use libkpnet.Sctp.Packet.Sending.{one_round}
use libkpnet.Client.{init_chunk, build_prefilled_mac_ip_sctp_init_hdr}

-- The packet has its two segments, and the TX ring room for sending it `left` times.
pub record CanSend (left : ℕ) (p : Packet) (x : Xdp) : Type 0 where
  pub storage : length p.xdp_segs ≡ xdp_max_segs
  pub two : p.xdp_seg_count ≡ 2
  pub ring : IsXdpRing x.tx
  pub room : used x.tx + 2 * left ≤ ring_size

length-segments : (ds : List Desc) → length (segments ds) ≡ length ds
length-segments [] = refl
length-segments (d ∷ ds) = ap suc (length-segments ds)

used-Sent :
    (x x' : Xdp) (segs : List (ℕ × ℕ)) {n m : ℕ}
    → n ≤ length segs
    → Sent x segs n (m, x')
    → used x'.tx ≡ used x.tx + n
used-Sent x x' segs {n} h (_, ds, _, s, c, _) = omega (
  arith,
  sym (length-read_slots no_desc x'.tx.slots x'.tx.consumer 0 (used x'.tx)),
  ap length c,
  length-append (contents no_desc x.tx) ds,
  length-read_slots no_desc x.tx.slots x.tx.consumer 0 (used x.tx),
  length-segments ds,
  ap length s,
  length-take n segs h,
)

-- One packet of the two segments `segs` is behind what was in the TX ring of `x`.
abbrev pub SentTwo : Xdp → List (ℕ × ℕ) → Xdp → Type 0
SentTwo x segs x' = Sent x segs 2 (2, x')

-- The packet as it is after sending it: only the length in its headers is new.
abbrev pub SendsOn : (Xdp → Xdp) → (left : ℕ) → Packet → Xdp → Type 0
SendsOn kernel left p x =
    (p' : Packet) × (x' : Xdp) × (eth_send_sctp 1 kernel p x ≡ (p', some x'))
    × CanSend left p' x'
    × (p'.xdp_segs ≡ p.xdp_segs)
    × SentTwo x p.xdp_segs x'

pub eth_send_sctp-CanSend :
    (kernel : Xdp → Xdp) {left : ℕ} {p : Packet} {x : Xdp}
    → CanSend (suc left) p x
    → SendsOn kernel left p x
unfolding eth_send_sctp
eth_send_sctp-CanSend kernel {left} {p} {x} v =
    elim (xdp_tx_all_or_nothing x p.xdp_segs p.xdp_seg_count v.ring
      (omega (arith, v.storage, v.two))) [
        | inl (_, _, s) ↦
            let x' = (xdp_tx x p.xdp_segs p.xdp_seg_count).1 in
            let more : used x'.tx ≡ used x.tx + p.xdp_seg_count =
              used-Sent x x' p.xdp_segs (omega (arith, v.storage, v.two)) s in
            (
              (eth_send_sctp 1 kernel p x).0,
              x',
              ap (λ y. ((eth_send_sctp 1 kernel p x).0, y))
                  (one_round x p.xdp_segs p.xdp_seg_count kernel (omega (arith, v.two)) s),
              record {
                storage = v.storage;
                two = v.two;
                ring = s.5;
                room = omega (arith, more, v.room, v.two);
              },
              refl,
              let (_, ds, ends, same, behind, ring) = s in
                  (refl, ds, ends, same ∙ ap (λ n. take n p.xdp_segs) v.two, behind, ring),
            )
        | inr (_, _, why) ↦ absurd (ground (arith, v.two, v.room, why))
      ]

-- The first INIT goes out as the headers and one chunk, which makes the packet of all later ones.
pub build_init-CanSend :
    (kernel : Xdp → Xdp) (d : Draws) (ulp : Ulp) (cursor : ℕ) {left : ℕ} (p : Packet) (x : Xdp)
    → length p.xdp_segs ≡ xdp_max_segs
    → IsXdpRing x.tx
    → used x.tx + 2 * suc left ≤ ring_size
    → (p' : Packet) × (x' : Xdp) × (build_prefilled_mac_ip_sctp_init_hdr 1 kernel d ulp
          (record (sctp_prepare_packet p) { umem_hdrs_cursor = cursor })
          x
        ≡ (init_chunk d ulp, (p', some x')))
      × CanSend left p' x'
      × SentTwo x p'.xdp_segs x'
unfolding build_prefilled_mac_ip_sctp_init_hdr sctp_prepare_packet sctp_push_to_xdp_segs
build_init-CanSend kernel d ulp cursor p x storage ring room =
    let (p', x', e, v, same, out) = eth_send_sctp-CanSend kernel (record {
      storage = length-set (set p.xdp_segs 0 _) 1 _ ∙ length-set p.xdp_segs 0 _ ∙ storage;
      two = refl;
      ring = ring;
      room = room;
    }) in
    (p', x', ap (λ y. (init_chunk d ulp, y)) e, v, subst (λ segs. SentTwo x segs x') (sym same) out)
