-- ===== src/Sctp/Process.antt =====
-- src/sctp_process_sctp_init.c, src/sctp_process_sctp_init_ack.c,
-- src/sctp_process_sctp_cookie_echo.c, src/sctp_process_sctp_cookie_ack.c: the four steps of the
-- handshake. A `packet` is what lies in memory from the pointer on. The result is `none` where a
-- NULL is dereferenced, else true for 0 and false for -1.
pub mod Echo
pub mod Handshake
use Prim.{Unit}
use libkpnet.Base.{
  ℕ, ◌+◌, ◌-◌, Bool, true, false, Option, none, some, List, length, drop, take, u16, bswap16, ltb,
  leb, ◌==◌, if◌then◌else◌,
}
use libkpnet.Wire.{ip_bytes, cmn_bytes, fld_bytes, get16, get32}
use libkpnet.Crc.{Host}
use libkpnet.Sctp.{Assoc, Net, Status, init_ack_received, established}
use libkpnet.Sctp.Cookie.{
  Cookie, cookie_bytes, hmac_md5_key_len, cookie_hdr_bytes, cookie_at, cookie_key, hmac_md5,
  tag_diff,
}
use libkpnet.Sctp.Build.{
  Draws, build_prefilled_mac_ip_sctp_init_ack_hdr, build_prefilled_mac_ip_sctp_cookie_echo_hdr,
  build_prefilled_mac_ip_sctp_cookie_ack_hdr,
}
use libkpnet.Sctp.Threads.{prepare_sctp_threads}

-- The association that `sctp_process_sctp_init` builds on its stack. The fields that it leaves
-- uninitialised, and nobody reads, are here those of `a`.
unfoldable pub init_assoc : Assoc → List ℕ → Assoc
init_assoc a packet =
    let sctp = drop ip_bytes packet in
    let init = drop (cmn_bytes + fld_bytes) sctp in
    record a {
      dst_port = get16 sctp 0;
      dst_ip = get32 packet 12;
      os = get16 init 8;
      mis = get16 init 10;
      a_rwnd = get32 init 4;
      ver_tag = get32 init 0;
      tsn = get32 init 12;
      dst_tsn = get32 init 12;
    }

-- The contents of a result, if there is one, are as `P` says.
abbrev pub Always : {A : Type 0} → (A → Type 0) → Option A → Type 0
Always P none = Unit
Always P (some x) = P x

-- What a builder returns is not looked at.
abbrev pub after : Assoc → Option (Bool × Net) → Option (Bool × Assoc × Net)
after a none = none
after a (some (_, net)) = some (true, a, net)

unfoldable pub sctp_process_sctp_init :
    Host → Draws → Assoc → Net → List ℕ → Option (Bool × Assoc × Net)
sctp_process_sctp_init h d a net packet =
    after a (build_prefilled_mac_ip_sctp_init_ack_hdr h d (init_assoc a packet) net)

abbrev pub init_ack_skip : ℕ
init_ack_skip = 16 + cookie_hdr_bytes

-- What the INIT ACK sets in the association.
unfoldable pub init_ack_assoc : Assoc → List ℕ → (plen : ℕ) → Assoc
init_ack_assoc a packet plen = record a {
  ver_tag = get32 packet 0;
  os = get16 packet 8;
  mis = get16 packet 10;
  a_rwnd = get32 packet 4;
  tsn = get32 packet 12;
  status = init_ack_received;
  id = u16 (plen - (fld_bytes + init_ack_skip));
  cookie = drop init_ack_skip packet;
}

-- `plen` is the length field of the chunk, in the byte order of the wire.
unfoldable pub sctp_process_sctp_init_ack :
    Host → Assoc → Net → List ℕ → (plen : ℕ) → Option (Bool × Assoc × Net)
sctp_process_sctp_init_ack h a net packet plen =
    let a' = init_ack_assoc a packet (bswap16 plen) in
    if leb (bswap16 plen) (fld_bytes + init_ack_skip)
    then some (false, a, net)
    else after a' (build_prefilled_mac_ip_sctp_cookie_echo_hdr h a' net)

abbrev pub rto_min : ℕ
rto_min = 1000

-- What an accepted cookie sets in the association.
unfoldable pub cookie_assoc : Assoc → Cookie → Assoc
cookie_assoc a c = record a {
  ver_tag = c.ver_tag;
  init_tag = c.init_tag;
  a_rwnd = c.a_rwnd;
  os = c.os;
  mis = c.mis;
  tsn = c.tsn;
  dst_tsn = c.dst_tsn;
  dst_ip = c.src_ip;
  dst_port = c.src_port;
  rto = rto_min;
  srtt = 0;
  rttvar = 0;
}

-- The value of `res` behind the loop, for the bytes behind the chunk header.
unfoldable pub echo_diff : Host → List ℕ → ℕ
echo_diff h body =
    tag_diff hmac_md5_key_len (hmac_md5 h (take cookie_bytes body) cookie_key)
      (drop cookie_bytes body) 0

unfoldable pub sctp_process_sctp_cookie_echo :
    Host → Draws → Assoc → Net → List ℕ → (plen : ℕ) → Option (Bool × Assoc × Net)
sctp_process_sctp_cookie_echo h d a net packet plen =
    let body = drop fld_bytes packet in
    let a' = cookie_assoc a (cookie_at body) in
    if ltb (bswap16 plen) (cookie_bytes + cookie_hdr_bytes + hmac_md5_key_len)
    then some (false, a, net)
    else (if echo_diff h body == 0
        then after (prepare_sctp_threads d.array d.room a').1
            (build_prefilled_mac_ip_sctp_cookie_ack_hdr h a' net)
        else some (false, a, net))

unfoldable pub sctp_process_sctp_cookie_ack : Draws → Assoc → (plen : ℕ) → Bool × Assoc
sctp_process_sctp_cookie_ack d a plen =
    if ltb (bswap16 plen) fld_bytes
    then (false, a)
    else (true, (prepare_sctp_threads d.array d.room (record a { status = established })).1)
