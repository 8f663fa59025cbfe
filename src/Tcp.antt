-- ===== src/Tcp.antt =====
-- src/build_tcp_raw.c, src/tcp_fill_opt_mss.c, src/build_tcp_opt_mss.c, src/fix_check_ip_tcp.c,
-- src/fix_check.c, src/if_ip_tcp.c, include/tcp.h: TCP segments in IPv4. `malloc` does not fail.
pub mod Accepted
mod Tests
use libkpnet.Base.{
  bit_or, ℕ, ◌+◌, ◌-◌, ◌*◌, ◌/◌, ◌%◌, Bool, true, false, Option, none, some, List, [], ◌∷◌, ◌++◌,
  drop, take, length, u16, u32, ltb, leb, bswap16, bswap32, ◌==◌, if◌then◌else◌,
}
use libkpnet.Wire.{mac_bytes, ip_bytes, cmn_bytes, fld_bytes, le16, le32, get16, get32, write_at}
use libkpnet.Checks.{fold, ip_checksum, tcp_checksum}
use libkpnet.Checks.Verify.{not_u16}
use mathlib.Core.Option

abbrev pub tcp_bytes : ℕ
tcp_bytes = 20

abbrev pub pseudo_bytes : ℕ
pseudo_bytes = 12

abbrev pub ipproto_tcp : ℕ
ipproto_tcp = 6

-- The header with the data offset 5. The ports and `ack` are stored as they come.
abbrev pub tcp_hdr : (srcp dstp seq ack flags win urgent : ℕ) → List ℕ
tcp_hdr srcp dstp seq ack flags win urgent =
    le16 srcp
    ++ le16 dstp
    ++ le32 (bswap32 seq)
    ++ le32 ack
    ++ le16 (bswap16 (bit_or 20480 flags))
    ++ le16 (bswap16 win)
    ++ le16 0
    ++ le16 (bswap16 urgent)

-- `frame->packet`, `none` for NULL, as the memory from there on, and `frame->plen`; the result has
-- the same memory, by how much the pointer moves forward, and the new `plen`.
unfoldable pub build_tcp_raw :
    (srcp dstp seq ack flags win urgent : ℕ)
    → Option (List ℕ)
    → (plen : ℕ) → Option (List ℕ) × ℕ × ℕ
build_tcp_raw srcp dstp seq ack flags win urgent none plen = (none, 0, 0)
build_tcp_raw srcp dstp seq ack flags win urgent (some p) plen =
    if ltb plen tcp_bytes then (some p, 0, 0) else (
      some (write_at 0 (tcp_hdr srcp dstp seq ack flags win urgent) p),
      tcp_bytes,
      plen - tcp_bytes,
    )

-- `tcp_opt_mss_t`
abbrev pub tcp_fill_opt_mss : (mss : ℕ) → List ℕ
tcp_fill_opt_mss mss = 2 ∷ 4 ∷ le16 (bswap16 mss)

-- The pseudo header of the IPv4 header at `p`, from the Ethernet header on. Its length is that of
-- the TCP header without options, whatever the segment holds.
abbrev pub pseudo : List ℕ → List ℕ
pseudo p = le32 (get32 p 26) ++ le32 (get32 p 30) ++ 0 ∷ ipproto_tcp ∷ le16 (bswap16 tcp_bytes)

-- `(ntohs (tcp->flags) >> 12 & 0XF) * 4`
abbrev pub data_offset : List ℕ → ℕ
data_offset p = bswap16 (get16 p 46) / 4096 % 16 * 4

-- `buffer`: the pseudo header and the TCP header with its options.
abbrev pub checked_part : List ℕ → List ℕ
checked_part p = pseudo p ++ take (data_offset p) (drop 34 p)

abbrev pub tcp_check : (fuel : ℕ) → List ℕ → Option ℕ
tcp_check fuel p = tcp_checksum fuel (checked_part p) (pseudo_bytes + data_offset p)

-- `sync` is `ip_check_part` of `frame->sync`, `none` where that is NULL.
abbrev pub with_ip_check : Option ℕ → List ℕ → List ℕ
with_ip_check none p =
    let cleared = write_at 24 (le16 0) p in
    write_at 24 (le16 (not_u16 (ip_checksum (drop mac_bytes cleared) ip_bytes))) cleared
with_ip_check (some part) p =
    let chk = u32 (part + get16 p 16) in
    write_at 24 (le16 (not_u16 (if ltb 65535 chk then fold chk else chk))) p

-- `p` is the memory from `frame->packet - (frm_max_len - frame->plen)` on. The TCP check is taken
-- over its own field as it stands.
unfoldable pub fix_check_ip_tcp : (fuel : ℕ) → (sync : Option ℕ) → List ℕ → Option (List ℕ)
fix_check_ip_tcp fuel sync p =
    let q = with_ip_check sync p in Option.map (λ c. write_at 50 (le16 c) q) (tcp_check fuel q)

abbrev pub proto_stack_ip_tcp : ℕ
proto_stack_ip_tcp = 4

-- `p` is the memory from `frame->packet` on. With 0 for `frm_max_len` the packet is looked for
-- `plen` bytes behind that.
unfoldable pub fix_check :
    (fuel : ℕ) → (sync : Option ℕ) → (proto plen : ℕ) → List ℕ → Option (List ℕ)
fix_check fuel sync proto plen p =
    if proto == proto_stack_ip_tcp
    then Option.map (λ q. take plen p ++ q) (fix_check_ip_tcp fuel sync (drop plen p))
    else some p

-- `if_ip_tcp_meta_t`
pub record TcpMeta : Type 0 where
  pub state : ℕ
  pub src_ip : ℕ
  pub dst_ip : ℕ
  pub src_port : ℕ
  pub dst_port : ℕ
  pub dst_seq : ℕ
  pub src_seq : ℕ

-- What is kept of the peer: all of a SYN, the sequence number of a SYN ACK.
abbrev pub note_peer : List ℕ → TcpMeta → TcpMeta
note_peer p m =
    let flags = bswap16 (get16 p 46) % 512 in
    if flags == 2
    then record m { dst_ip = get32 p 26; dst_port = get16 p 34; dst_seq = get32 p 38 }
    else (if flags == 18 then record m { dst_seq = get32 p 38 } else m)

-- The result is false for NULL; the packet is changed in place, and so is the meta.
abbrev pub TcpResult : Type 0
TcpResult = Bool × TcpMeta × List ℕ

-- From the reset of the TCP check on.
abbrev pub check_tcp : (fuel : ℕ) → List ℕ → TcpMeta → Option TcpResult
check_tcp fuel p m =
    let cleared = write_at 50 (le16 0) p in
    Option.map
      (λ c.
        let q = write_at 50 (le16 c) cleared in
        if get16 p 50 == c then (true, note_peer q m, q) else (false, m, q))
      (tcp_check fuel cleared)

-- `packet` and `meta` are not NULL.
unfoldable pub if_ip_tcp : (fuel : ℕ) → List ℕ → (size : ℕ) → TcpMeta → Option TcpResult
if_ip_tcp fuel p size m =
    let cleared = write_at 24 (le16 0) p in
    let rest = check_tcp fuel cleared m in
    if leb size (mac_bytes + ip_bytes + cmn_bytes + fld_bytes)
    then some (false, m, p)
    else (if m.src_ip == get32 p 30
        then (if get16 p 24 == not_u16 (ip_checksum (drop mac_bytes cleared) ip_bytes)
            then rest
            else some (false, m, cleared))
        else some (false, m, p))
