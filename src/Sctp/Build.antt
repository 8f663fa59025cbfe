-- ===== src/Sctp/Build.antt =====
-- src/build_prefilled_mac_ip_sctp_init_ack_hdr.c, src/build_prefilled_mac_ip_sctp_cookie_echo_hdr.c,
-- src/build_prefilled_mac_ip_sctp_cookie_ack_hdr.c: a buffer with ready-made headers is taken from
-- the prefilled ring, a chunk is written behind them, the headers are patched, and the buffer goes
-- to both the TX ring and the prefilled one.
pub mod Rings
pub mod Patched
mod Tests
use mathlib.Core.Option
use libkpnet.Base.{
  ℕ, ◌+◌, ◌-◌, ◌*◌, ◌/◌, ◌%◌, ◌^◌, Bool, true, false, Option, none, some, List, [], ◌∷◌, ◌++◌,
  length, drop, take, u16, u32, sub_u32, bswap16, bswap32, ltb, ◌==◌, if◌then◌else◌,
}
use libkpnet.Ring.{Cell, Ringbuf, cell_at, push_ringbuf, pop_ringbuf}
use libkpnet.Wire.{mac_bytes, ip_bytes, cmn_bytes, fld_bytes, le16, le32, get16, write_at}
use libkpnet.Crc.{Host, generate_crc32c, generate_crc32c_on_crc32c, not_u32}
use libkpnet.Sctp.{Assoc, Net, type_init_ack, type_cookie_echo, type_cookie_ack}
use libkpnet.Sctp.Cookie.{
  Cookie, cookie_bytes, hmac_md5_key_len, cookie_hdr_bytes, encode_cookie, cookie_key, hmac_md5,
}

-- What the random generators and the allocators give to one call.
pub record Draws : Type 0 where
  pub init_tag : ℕ
  pub init_tsn : ℕ
  pub cookie_tag : ℕ
  -- whether the array of threads is allocated, and how many threads can be
  pub array : Bool
  pub room : ℕ

-- Offsets in a packet: the IPv4 header's `len`, `check` and `dest_addr`, the SCTP header's
-- `dstp`, `tag` and `check`, and the first chunk.
abbrev pub ip_len_at : ℕ
ip_len_at = mac_bytes + 2

abbrev pub ip_check_at : ℕ
ip_check_at = mac_bytes + 10

abbrev pub ip_dest_at : ℕ
ip_dest_at = mac_bytes + 16

abbrev pub cmn_at : ℕ
cmn_at = mac_bytes + ip_bytes

abbrev pub chunk_at : ℕ
chunk_at = cmn_at + cmn_bytes

-- `chk += htons (0) - len - dest`, folded once and stored in 16 bits
pub patched_check : (chk len dest : ℕ) → ℕ
patched_check chk len dest =
    let c = sub_u32 (sub_u32 chk len) dest in u16 (if ltb 65535 c then c % 65536 + c / 65536 else c)

-- The length and the check of the IPv4 header of a packet of `plen` bytes.
pub patch_ip : (plen dest : ℕ) → List ℕ → List ℕ
patch_ip plen dest b =
    let len = bswap16 (u16 (plen - mac_bytes)) in
    write_at ip_check_at (le16 (patched_check (get16 b ip_check_at) len dest))
      (write_at ip_len_at (le16 len) b)

-- The verification tag, and the CRC32C over the SCTP header and `n` bytes behind it.
pub patch_sctp : Host → (tag n : ℕ) → List ℕ → List ℕ
patch_sctp h tag n b =
    let c = write_at (cmn_at + 8) (le32 0) (write_at (cmn_at + 4) (le32 tag) b) in
    let crc = generate_crc32c_on_crc32c h (take (cmn_bytes + n) (drop cmn_at c)) 4294967295 in
    write_at (cmn_at + 8) (le32 (not_u32 crc)) c

-- The new state of the rings and the buffers.
abbrev pub delivered : Net → (tx prefilled : Ringbuf) → (p : ℕ) → List ℕ → Net
delivered net tx prefilled p b = record {
  prefilled = prefilled;
  tx = tx;
  mem = λ q. if q == p then b else net.mem q;
}

-- Behind the push to the prefilled ring, and behind the push to the TX ring: what the pushes
-- return is not looked at.
abbrev pub put_back :
    Net → Ringbuf → (p : ℕ) → List ℕ → Option (Bool × Ringbuf) → Option (Bool × Net)
put_back net tx p b none = none
put_back net tx p b (some (_, r)) = some (true, delivered net tx r p b)

abbrev pub put_out :
    Net → Ringbuf → (p plen : ℕ) → List ℕ → Option (Bool × Ringbuf) → Option (Bool × Net)
put_out net r p plen b none = none
put_out net r p plen b (some (_, tx)) = put_back net tx p b (push_ringbuf 0 r p plen)

abbrev pub fill_cell :
    Net → (bytes : ℕ) → (ℕ → List ℕ → List ℕ) → Ringbuf → Cell → Option (Bool × Net)
fill_cell net bytes fill r cell =
    let plen = u32 (cell.plen + bytes) in
    let out =
      put_out net r cell.packet cell.plen (fill plen (net.mem cell.packet))
        (push_ringbuf 0 net.tx cell.packet plen) in
    if cell.packet == 0
    then some (false, record net { prefilled = r })
    else (if ltb (length (net.mem cell.packet)) (chunk_at + bytes) then none else out)

abbrev pub take_cell :
    Net → (bytes : ℕ) → (ℕ → List ℕ → List ℕ) → Option (Option ℕ × Ringbuf) → Option (Bool × Net)
take_cell net bytes fill none = none
take_cell net bytes fill (some (none, r)) = none
take_cell net bytes fill (some (some i, r)) = fill_cell net bytes fill r (cell_at r i)

-- The common frame of the builders: `none` is the dereference of the NULL that `pop_ringbuf`
-- returns for an empty ring, or a write behind the buffer, where the `bytes` of the chunk do not fit
-- into it; the result is true for 0 and false for -1. `fill` gets the length of the packet and the
-- buffer.
unfoldable pub with_prefilled : Net → (bytes : ℕ) → (ℕ → List ℕ → List ℕ) → Option (Bool × Net)
with_prefilled net bytes fill = take_cell net bytes fill (pop_ringbuf 0 net.prefilled)

-- The `cookie` of the INIT ACK: the state of the association that is not kept.
unfoldable pub cookie_of : Draws → Assoc → Cookie
cookie_of d a = record {
  ver_tag = a.ver_tag;
  init_tag = d.cookie_tag;
  a_rwnd = a.a_rwnd;
  os = a.os;
  mis = a.mis;
  tsn = a.tsn;
  dst_tsn = a.dst_tsn;
  src_ip = a.dst_ip;
  dst_ip = a.ulp.src_ip;
  src_port = a.dst_port;
  dst_port = a.ulp.src_port;
}

-- `hdr.cookie` and `hdr.hmac`
unfoldable pub signed_cookie : Host → Cookie → List ℕ
signed_cookie h c = encode_cookie c ++ hmac_md5 h (encode_cookie c) cookie_key

abbrev pub init_ack_bytes : ℕ
init_ack_bytes = 80

-- The whole `hdr` of the INIT ACK.
unfoldable pub init_ack_chunk : Host → Draws → Assoc → List ℕ
init_ack_chunk h d a =
    type_init_ack ∷ 0 ∷ le16 (bswap16 init_ack_bytes)
    ++ le32 d.init_tag
    ++ le32 (bswap32 a.ulp.src_arwnd)
    ++ le16 (bswap16 a.ulp.src_os)
    ++ le16 (bswap16 a.ulp.src_mis)
    ++ le32 d.init_tsn
    ++ le16 (bswap16 7)
    ++ le16 (bswap16 (cookie_hdr_bytes + cookie_bytes + hmac_md5_key_len))
    ++ signed_cookie h (cookie_of d a)

unfoldable pub build_prefilled_mac_ip_sctp_init_ack_hdr :
    Host → Draws → Assoc → Net → Option (Bool × Net)
build_prefilled_mac_ip_sctp_init_ack_hdr h d a net = with_prefilled net init_ack_bytes (λ plen b.
    patch_sctp h a.ver_tag init_ack_bytes (
      write_at (cmn_at + 2) (le16 a.dst_port) (
        patch_ip plen a.dst_ip
          (write_at ip_dest_at (le32 a.dst_ip) (write_at chunk_at (init_ack_chunk h d a) b)))))

-- The chunk that sends `assoc->id` bytes from `assoc->retry_ring` back.
unfoldable pub cookie_echo_chunk : Assoc → List ℕ
cookie_echo_chunk a =
    type_cookie_echo ∷ 0 ∷ le16 (bswap16 (u16 (fld_bytes + a.id))) ++ take a.id a.cookie

unfoldable pub build_prefilled_mac_ip_sctp_cookie_echo_hdr :
    Host → Assoc → Net → Option (Bool × Net)
build_prefilled_mac_ip_sctp_cookie_echo_hdr h a net =
    with_prefilled net (fld_bytes + a.id) (λ plen b.
      patch_sctp h a.ver_tag (u16 (fld_bytes + a.id))
        (patch_ip plen 0 (write_at chunk_at (cookie_echo_chunk a) b)))

abbrev pub cookie_ack_chunk : List ℕ
cookie_ack_chunk = type_cookie_ack ∷ 0 ∷ le16 (bswap16 fld_bytes)

unfoldable pub build_prefilled_mac_ip_sctp_cookie_ack_hdr : Host → Assoc → Net → Option (Bool × Net)
build_prefilled_mac_ip_sctp_cookie_ack_hdr h a net = with_prefilled net fld_bytes (λ plen b.
    patch_sctp h a.ver_tag fld_bytes (
      write_at (cmn_at + 2) (le16 a.dst_port) (
        patch_ip plen a.dst_ip
          (write_at ip_dest_at (le32 a.dst_ip) (write_at chunk_at cookie_ack_chunk b)))))
