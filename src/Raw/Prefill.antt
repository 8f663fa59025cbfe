-- ===== src/Raw/Prefill.antt =====
-- src/prefill_mac_ip_sctp.c, src/prefill_mac_ip_sctp_.c, src/prefill_sctp_mac_ip.c: the headers that
-- are written into a buffer ahead of the chunks.
pub mod Checks
pub mod Init
mod Tests
use libkpnet.Base.{
  ℕ, ◌+◌, ◌-◌, ◌*◌, ◌/◌, ◌%◌, ◌^◌, Option, none, some, List, [], ◌∷◌, ◌++◌, drop, u16, bswap16,
}
use libkpnet.Wire.{ip_bytes, le16, le32, hw_bytes}
use libkpnet.Crc.{Host}
use libkpnet.Checks.{ip_checksum}
use libkpnet.Checks.Verify.{not_u16}
use libkpnet.Sctp.{Ulp}
use libkpnet.Sctp.Packet.{Packet}
use libkpnet.Raw.{
  Meta, Frame, cmn_hdr, proto_sctp, ethertype_ip, build_sctp_cmn_hdr_raw, build_ip_raw,
  build_mac_raw,
}

-- An IPv4 header of the prefilled packets.
abbrev pub prefilled_ip : (tos indent ttl check src dst : ℕ) → List ℕ
prefilled_ip tos indent ttl check src dst =
    69 ∷ tos % 256 ∷ le16 0
    ++ le16 indent
    ++ le16 0
    ++ ttl ∷ proto_sctp ∷ le16 check
    ++ le32 src
    ++ le32 dst

-- `frame->prefill` and `frame->plen`: the buffer behind the three headers stays.
abbrev pub prefilled_frame : (indent : ℕ) → Option (List ℕ) → Option Meta → Option (List ℕ × ℕ)
prefilled_frame indent none state = none
prefilled_frame indent (some p) none = none
prefilled_frame indent (some p) (some m) =
    let check =
      not_u16 (ip_checksum (prefilled_ip (bswap16 2) indent 228 0 m.src_ip m.dst_ip) ip_bytes) in
    some (
      hw_bytes m.gateway
          ++ hw_bytes m.dev
          ++ le16 (bswap16 ethertype_ip)
          ++ prefilled_ip (bswap16 2) indent 228 check m.src_ip m.dst_ip
          ++ cmn_hdr m.src_port m.dst_port 0
          ++ drop 46 p,
      46,
    )

unfoldable pub prefill_mac_ip_sctp :
    (indent : ℕ) → (prefill : Option (List ℕ)) → (state : Option Meta) → Option (List ℕ × ℕ)
prefill_mac_ip_sctp indent prefill state = prefilled_frame indent prefill state

abbrev pub enveloped :
    Host → (indent plen : ℕ) → Option (List ℕ) → Option Meta → Option (Option (List ℕ) × ℕ)
enveloped h indent plen none state = none
enveloped h indent plen (some p) none = none
enveloped h indent plen (some p) (some m) = some (
    build_mac_raw m.gateway m.dev ethertype_ip (
      build_ip_raw indent m.src_ip m.dst_ip proto_sctp
        (build_sctp_cmn_hdr_raw h m.src_port m.dst_port 0 (some (drop 46 p), plen))))

unfoldable pub prefill_mac_ip_sctp_ :
    Host
    → (indent plen : ℕ) → (prefill : Option (List ℕ)) → (state : Option Meta)
    → Option (Option (List ℕ) × ℕ)
prefill_mac_ip_sctp_ h indent plen prefill state = enveloped h indent plen prefill state

-- The first six bytes of a `u64`.
abbrev pub le48 : ℕ → List ℕ
le48 x = le32 x ++ le16 (x / 2 ^ 32)

-- The headers of the packet of a new association, with no check filled in.
unfoldable pub prefill_sctp_mac_ip :
    (indent : ℕ) → Ulp → (mac_gateway mac_dev : ℕ) → Packet → Packet
prefill_sctp_mac_ip indent ulp gateway dev p = record p {
  headers =
      le48 gateway
      ++ le48 dev
      ++ le16 (bswap16 ethertype_ip)
      ++ prefilled_ip 2 indent 141 0 ulp.src_ip ulp.dst_ip
      ++ cmn_hdr ulp.src_port ulp.dst_port 0;
  prefilled_umem_packet_len = 46;
  prefilled_umem_packet = p.prefilled_umem_packet + 2;
}
