-- ===== src/Legacy.antt =====
-- src/build_sctp_hdr_raw.c, src/if_sctp.c, src/if_ipv4.c, src/if_ipv4_sctp.c,
-- include/if_packet.h: the first implementation of the SCTP handshake, on packets of an ordinary
-- socket. `malloc` does not fail.
pub mod Exchange
mod Tests
use libkpnet.Base.{
  ℕ, ◌+◌, ◌-◌, ◌^◌, ◌/◌, ◌%◌, Bool, true, false, ◌||◌, ◌&&◌, Option, none, some, List, [], ◌∷◌,
  ◌++◌, drop, take, u16, u32, bswap16, bswap32, ltb, ◌==◌, if◌then◌else◌,
}
use libkpnet.Wire.{
  mac_bytes, ip_bytes, cmn_bytes, fld_bytes, le16, le32, get8, get16, get32, overwrite, write_at,
}
use libkpnet.Crc.{Host, generate_crc32c}
use libkpnet.Sctp.{
  Status, listen, init_received, init_ack_sent, type_init, type_init_ack, type_cookie_echo,
  type_cookie_ack,
}

abbrev pub type_error : ℕ
type_error = 9

abbrev pub stale_cookie : ℕ
stale_cookie = 3

-- `connection_args_t`, the fields that take part; `errors` is the list from its first node on, and
-- `src_addr` and `dest_addr` are those of `net_layer.ipv4`.
pub record Conn : Type 0 where
  pub payload : List ℕ
  pub srcport : ℕ
  pub dstport : ℕ
  pub src_ver_tag : ℕ
  pub dst_ver_tag : ℕ
  pub src_tsn : ℕ
  pub dst_tsn : ℕ
  pub dest_a_rwnd : ℕ
  pub self_os : ℕ
  pub self_mis : ℕ
  pub dest_os : ℕ
  pub dest_mis : ℕ
  pub hmac : ℕ
  pub errors : List ℕ
  pub status : Status
  pub src_addr : ℕ
  pub dest_addr : ℕ

-- The common header with the check 0, and the header of a chunk with the flags 0.
abbrev pub chunk_headers : (srcp dstp tag type len : ℕ) → List ℕ
chunk_headers srcp dstp tag type len =
    le16 (bswap16 srcp)
    ++ le16 (bswap16 dstp)
    ++ le32 tag
    ++ le32 0
    ++ type ∷ 0 ∷ le16 (bswap16 len)

-- The body of an INIT and of an INIT ACK; the tag and the TSN are stored as they are drawn.
abbrev pub init_body : (tag a_rwnd os mis tsn : ℕ) → List ℕ
init_body tag a_rwnd os mis tsn =
    le32 tag ++ le32 (bswap32 a_rwnd) ++ le16 (bswap16 os) ++ le16 (bswap16 mis) ++ le32 tsn

-- The CRC32C over the common header and a chunk of `len` bytes.
abbrev pub with_check : Host → (len : ℕ) → List ℕ → List ℕ
with_check h len p = write_at 8 (le32 (generate_crc32c h (take (cmn_bytes + len) p))) p

-- What `get_random_u32` gives, first for the TSN.
pub record TagDraws : Type 0 where
  pub tsn : ℕ
  pub tag : ℕ

-- `self_os` and `self_mis` are kept in the byte order of the wire.
abbrev pub drawn : TagDraws → (os mis : ℕ) → Conn → Conn
drawn d os mis c = record c {
  self_os = bswap16 os;
  self_mis = bswap16 mis;
  src_tsn = d.tsn;
  dst_ver_tag = d.tag;
}

abbrev pub no_errors : List ℕ → Bool
no_errors [] = true
no_errors (_ ∷ _) = false

-- The parameters `tag` and `flags` are not used. The packet is the memory at `tp_layer.sctp`.
unfoldable pub build_sctp_hdr_raw :
    Host → TagDraws → (srcp dstp type os mis a_rwnd : ℕ) → Conn → List ℕ → Bool × Conn × List ℕ
build_sctp_hdr_raw h d srcp dstp type os mis a_rwnd c p =
    let body = init_body d.tag a_rwnd os mis d.tsn in
    let started = overwrite (le16 (bswap16 srcp) ++ le16 (bswap16 dstp)) (write_at 8 (le32 0) p) in
    if type == type_init
    then (
      true,
      drawn d os mis c,
      with_check h 20 (overwrite (chunk_headers srcp dstp 0 type 20 ++ body) p),
    )
    else (if type == type_init_ack
        then (
          true,
          drawn d os mis c,
          with_check h 28 (overwrite (chunk_headers srcp dstp c.src_ver_tag type 28 ++ body) p),
        )
        else (if type == type_cookie_echo
            then (
              true,
              c,
              with_check h 8
                  (overwrite (chunk_headers srcp dstp c.src_ver_tag type 8 ++ le32 c.hmac) p),
            )
            else (if type == type_cookie_ack
                then (
                  true,
                  c,
                  with_check h 4 (overwrite (chunk_headers srcp dstp c.src_ver_tag type 4) p),
                )
                else (if (type == type_error) && no_errors c.errors
                    then (false, c, started)
                    else (true, c, started)))))

abbrev pub is_listen : Status → Bool
is_listen listen = true
is_listen _ = false

abbrev pub is_init_ack_sent : Status → Bool
is_init_ack_sent init_ack_sent = true
is_init_ack_sent _ = false

-- An INIT in SCTP_LISTEN: `os` and `mis` are turned into the byte order of the host.
abbrev pub on_init : List ℕ → Conn → Conn
on_init p c = record c {
  status = init_received;
  dstport = get16 p 0;
  dst_tsn = get32 p 16;
  src_ver_tag = get32 p 16;
  dest_a_rwnd = get32 p 20;
  dest_os = bswap16 (get16 p 24);
  dest_mis = bswap16 (get16 p 26);
  payload =
      overwrite
        (le32 c.src_addr
          ++ le32 c.dest_addr
          ++ le32 c.dst_ver_tag
          ++ le32 c.hmac
          ++ le32 (c.hmac / 2 ^ 32))
        c.payload;
}

-- An INIT ACK: here they are left in that of the wire.
abbrev pub on_init_ack : List ℕ → Conn → Conn
on_init_ack p c = record c {
  dst_tsn = get32 p 16;
  src_ver_tag = get32 p 16;
  dest_a_rwnd = get32 p 20;
  dest_mis = get16 p 26;
  dest_os = get16 p 24;
}

-- The new node goes behind the first; a longer list is walked to NULL, which is then dereferenced.
abbrev pub stale : Conn → List ℕ → Option Conn
stale c [] = some (record c { errors = stale_cookie ∷ [] })
stale c (_ ∷ _) = none

abbrev pub handed_on : List ℕ → Option Conn → Option (Bool × Conn × List ℕ)
handed_on p none = none
handed_on p (some c) = some (true, c, p)

-- The chunks, behind the test of the check. `none` is a dereference of NULL.
abbrev pub on_chunk : List ℕ → Conn → Option (Bool × Conn × List ℕ)
on_chunk p c =
    let type = get8 p 12 in
    let ours = get32 p 4 == c.dst_ver_tag in
    if type == type_init
    then (if is_listen c.status then some (true, on_init p c, p) else some (false, c, p))
    else (if type == type_init_ack
        then (if ours then some (true, on_init_ack p c, p) else some (false, c, p))
        else (if type == type_cookie_echo
            then (if is_init_ack_sent c.status && ours
                then (if get32 p 16 == c.hmac
                    then some (true, c, p)
                    else handed_on p (stale c c.errors))
                else some (false, c, p))
            else some (type == type_cookie_ack, c, p)))

-- `p` is the packet from the common header on; its check is left cleared.
unfoldable pub if_sctp : Host → List ℕ → (size : ℕ) → Conn → Option (Bool × Conn × List ℕ)
if_sctp h p size c =
    let cleared = write_at 8 (le32 0) p in
    let rest = on_chunk cleared c in
    if ltb size (cmn_bytes + fld_bytes)
    then some (false, c, p)
    else (if (get16 p 0 == c.dstport) && (get16 p 2 == c.srcport)
        then (if get32 p 8 == generate_crc32c h (take (cmn_bytes + bswap16 (get16 p 14)) cleared)
            then rest
            else some (false, c, cleared))
        else some (false, c, p))

-- `p` is the packet from the Ethernet header on, `to` the destination of `net_layer.ipv4`.
unfoldable pub if_ipv4 : List ℕ → (size to : ℕ) → Bool
if_ipv4 p size to = if ltb size (mac_bytes + ip_bytes) then false else get32 p 26 == to

abbrev pub behind : List ℕ → Option (Bool × Conn × List ℕ) → Option (Bool × Conn × List ℕ)
behind p none = none
behind p (some (ok, c, q)) = some (ok, c, take (mac_bytes + ip_bytes) p ++ q)

unfoldable pub if_ipv4_sctp : Host → List ℕ → (size : ℕ) → Conn → Option (Bool × Conn × List ℕ)
if_ipv4_sctp h p size c =
    let rest =
      behind p (if_sctp h (drop (mac_bytes + ip_bytes) p) (size - mac_bytes - ip_bytes) c) in
    if if_ipv4 p size c.dest_addr then rest else some (false, c, p)
