-- ===== src/Sctp/Packet.antt =====
-- src/sctp_prepare_packet.c, src/sctp_push_to_xdp_segs.c, src/eth_send_sctp.c: the segments of the
-- packet that an association is putting together, and its way into the TX ring. An address is a
-- number.
pub mod Sending
use libkpnet.Base.{
  ℕ, zero, suc, ◌+◌, ◌-◌, ◌^◌, Bool, true, false, Option, none, some, List, [], ◌∷◌, set, u16, u32,
  sub_u32, sub_u64, bswap16, leb, ◌==◌, if◌then◌else◌,
}
use libkpnet.Wire.{mac_bytes, ip_bytes, cmn_bytes, le16, write_at}
use libkpnet.Xdp.{Xdp, xdp_max_segs, xdp_tx}

-- The fields of `sctp_association_t` that take part. `xdp_segs` and `xdp_seg_lens` are one list of
-- pairs, and `headers` are the bytes of `prefilled_umem_packet`.
pub record Packet : Type 0 where
  pub umem : ℕ
  pub umem_hdrs_cursor : ℕ
  pub prefilled_umem_packet : ℕ
  pub prefilled_umem_packet_len : ℕ
  pub headers : List ℕ
  pub mtu : ℕ
  pub remain_plen : ℕ
  pub xdp_segs : List (ℕ × ℕ)
  pub xdp_seg_count : ℕ

unfoldable pub sctp_prepare_packet : Packet → Packet
sctp_prepare_packet p = record p {
  xdp_segs = set p.xdp_segs 0 (sub_u64 p.prefilled_umem_packet p.umem, p.prefilled_umem_packet_len);
  xdp_seg_count = 1;
  remain_plen = p.mtu;
}

-- The result is true for 0 and false for -1.
unfoldable pub sctp_push_to_xdp_segs : Packet → (len : ℕ) → Bool × Packet
sctp_push_to_xdp_segs p len = if leb xdp_max_segs p.xdp_seg_count then (false, p) else (
  true,
  record p {
    xdp_segs = set p.xdp_segs p.xdp_seg_count (sub_u64 p.umem_hdrs_cursor p.umem, u32 len);
    xdp_seg_count = p.xdp_seg_count + 1;
  },
)

-- The loop around `xdp_tx`: `kernel` is what the kernel does to the rings between two rounds, and
-- `none` says that the fuel ran out.
pub send_loop : (fuel : ℕ) → (Xdp → Xdp) → List (ℕ × ℕ) → ℕ → Xdp → Option Xdp
send_loop zero kernel segs n x = none
send_loop (suc fuel) kernel segs n x =
    let (sent, x') = xdp_tx x segs n in
    let again = send_loop fuel kernel segs n (kernel x') in if sent == 0 then again else some x'

-- The headers with the length written, and the rings behind the loop.
unfoldable pub eth_send_sctp : (fuel : ℕ) → (Xdp → Xdp) → Packet → Xdp → Packet × Option Xdp
eth_send_sctp fuel kernel p x =
    let len = u16 (sub_u32 p.mtu p.remain_plen + ip_bytes + cmn_bytes) in
    (
      record p { headers = write_at (mac_bytes + 2) (le16 (bswap16 len)) p.headers },
      send_loop fuel kernel p.xdp_segs p.xdp_seg_count x,
    )
