-- ===== src/Raw.antt =====
-- src/build_sctp_*_raw.c, src/build_ip_raw.c, src/build_mac_raw.c, and src/build_sctp_init_hdr.c,
-- _init_ack_hdr.c, _cookie_echo_hdr.c, _cookie_ack_hdr.c over them: headers that are written in
-- front of one another, the last header first. A packet pointer is the list of bytes from it on, or
-- `none` for NULL; moving it back over a header puts the bytes in front.
pub mod Accepted
pub mod Prefill
mod Tests
use libkpnet.Base.{
  ℕ, ◌+◌, ◌-◌, ◌*◌, ◌/◌, ◌%◌, ◌^◌, Bool, Option, none, some, List, [], ◌∷◌, ◌++◌, length, take,
  drop, u16, bswap16, bswap32,
}
use libkpnet.Wire.{
  mac_bytes, ip_bytes, cmn_bytes, fld_bytes, le16, le32, write_at, HwAddr, hw_bytes,
}
use libkpnet.Crc.{Host, generate_crc32c}
use libkpnet.Checks.{ip_checksum}
use libkpnet.Checks.Verify.{not_u16}
use libkpnet.Sctp.{type_init, type_init_ack, type_cookie_echo, type_cookie_ack}
use libkpnet.Sctp.Cookie.{cookie_bytes, cookie_hdr_bytes, hmac_md5_key_len, cookie_key, hmac_md5}

-- `if_ip_sctp_meta_t`; `add` and `add_len` are the one list `add`.
pub record Meta : Type 0 where
  pub ver_tag : ℕ
  pub init_tag : ℕ
  pub a_rwnd : ℕ
  pub os : ℕ
  pub mis : ℕ
  pub tsn : ℕ
  pub src_ip : ℕ
  pub dst_ip : ℕ
  pub src_port : ℕ
  pub dst_port : ℕ
  pub state : ℕ
  pub src_arwnd : ℕ
  pub src_os : ℕ
  pub src_mis : ℕ
  pub dev : HwAddr
  pub gateway : HwAddr
  pub add : List ℕ

-- `frame_data_t`, the fields that take part
pub record Frame : Type 0 where
  pub packet : Option (List ℕ)
  pub plen : ℕ
  pub state : Option Meta

-- A packet pointer and `*plen`.
abbrev pub Built : Type 0
Built = Option (List ℕ) × ℕ

-- The next header in front; NULL stays NULL.
abbrev pub prepend : List ℕ → Built → Built
prepend hdr (none, plen) = (none, plen)
prepend hdr (some p, plen) = (some (hdr ++ p), u16 (plen + length hdr))

unfoldable pub build_sctp_fld_hdr_raw : (type flags len : ℕ) → Built → Built
build_sctp_fld_hdr_raw type flags len b = prepend (type ∷ flags ∷ le16 (bswap16 len)) b

unfoldable pub build_sctp_init_hdr_raw : (tag a_rwnd os mis tsn : ℕ) → Built → Built
build_sctp_init_hdr_raw tag a_rwnd os mis tsn b =
    prepend
      (le32 (bswap32 tag)
        ++ le32 (bswap32 a_rwnd)
        ++ le16 (bswap16 os)
        ++ le16 (bswap16 mis)
        ++ le32 (bswap32 tsn))
      b

unfoldable pub build_sctp_init_ack_hdr_raw : (tag a_rwnd os mis tsn : ℕ) → Built → Built
build_sctp_init_ack_hdr_raw tag a_rwnd os mis tsn b =
    prepend
      (le32 (bswap32 tag)
        ++ le32 (bswap32 a_rwnd)
        ++ le16 (bswap16 os)
        ++ le16 (bswap16 mis)
        ++ le32 (bswap32 tsn))
      b

unfoldable pub build_sctp_cookie_echo_hdr_raw : (cookie : List ℕ) → Built → Built
build_sctp_cookie_echo_hdr_raw cookie b = prepend cookie b

-- `cookie` are the bytes of a `cookie_t`.
unfoldable pub build_sctp_cookie_param_raw : Host → (cookie : List ℕ) → Built → Built
build_sctp_cookie_param_raw h cookie b =
    prepend
      (le16 (bswap16 7)
        ++ le16 (bswap16 (cookie_hdr_bytes + cookie_bytes + hmac_md5_key_len))
        ++ cookie
        ++ hmac_md5 h cookie cookie_key)
      b

abbrev pub cmn_hdr : (srcport dstport tag : ℕ) → List ℕ
cmn_hdr srcport dstport tag = le16 (bswap16 srcport) ++ le16 (bswap16 dstport) ++ le32 tag ++ le32 0

abbrev pub with_crc : Host → Built → Built
with_crc h (none, plen) = (none, plen)
with_crc h (some p, plen) = (some (write_at 8 (le32 (generate_crc32c h (take plen p))) p), plen)

unfoldable pub build_sctp_cmn_hdr_raw : Host → (srcport dstport tag : ℕ) → Built → Built
build_sctp_cmn_hdr_raw h srcport dstport tag b =
    with_crc h (prepend (cmn_hdr srcport dstport tag) b)

-- `tos` is a byte, so that nothing of `htons (0x2)` is left; `indent` is cut to 16 bits.
abbrev pub ip_hdr : (len indent src dst proto : ℕ) → List ℕ
ip_hdr len indent src dst proto =
    69 ∷ bswap16 2 % 256 ∷ le16 (bswap16 len)
    ++ le16 indent
    ++ le16 0
    ++ 181 ∷ proto ∷ le16 0
    ++ le32 src
    ++ le32 dst

abbrev pub with_ip : (indent src dst proto : ℕ) → Built → Built
with_ip indent src dst proto (none, plen) = (none, plen)
with_ip indent src dst proto (some p, plen) =
    let len = u16 (plen + ip_bytes) in
    let hdr = ip_hdr len indent src dst proto in
    (some (write_at 10 (le16 (not_u16 (ip_checksum hdr ip_bytes))) (hdr ++ p)), len)

unfoldable pub build_ip_raw : (indent src dst proto : ℕ) → Built → Built
build_ip_raw indent src dst proto b = with_ip indent src dst proto b

unfoldable pub build_mac_raw : (gateway dev : HwAddr) (typelen : ℕ) → Built → Built
build_mac_raw gateway dev typelen b =
    prepend (hw_bytes gateway ++ hw_bytes dev ++ le16 (bswap16 typelen)) b

abbrev pub proto_sctp : ℕ
proto_sctp = 132

abbrev pub ethertype_ip : ℕ
ethertype_ip = 2048

-- The three headers in front of the chunk, as each builder calls for them.
abbrev pub envelope : Host → Meta → (tag indent : ℕ) → Built → Built
envelope h m tag indent b = build_mac_raw m.gateway m.dev ethertype_ip (
    build_ip_raw indent m.src_ip m.dst_ip proto_sctp
      (build_sctp_cmn_hdr_raw h m.src_port m.dst_port tag b))

-- The header of the chunk, its length being what is there so far and the header.
abbrev pub with_fld : (type : ℕ) → Built → Built
with_fld type b = build_sctp_fld_hdr_raw type 0 (u16 (b.1 + fld_bytes)) b

abbrev pub headers_bytes : ℕ
headers_bytes = mac_bytes + ip_bytes + cmn_bytes + fld_bytes

-- What the random generators give to one call.
pub record RawDraws : Type 0 where
  pub tag : ℕ
  pub tsn : ℕ
  pub indent : ℕ

-- The frame with the state `m` and the new pointer and length, for the non-NULL packet `p`.
abbrev pub framed : Meta → Built → Option Frame
framed m (p, plen) = some (record { packet = p; plen = plen; state = some m })

abbrev pub init_frame : Host → RawDraws → Option (List ℕ) → ℕ → Option Meta → Option Frame
init_frame h d none plen state = none
init_frame h d (some p) plen none = none
init_frame h d (some p) plen (some m) = framed m (
    envelope h m 0 d.indent (
      with_fld type_init (
        build_sctp_init_hdr_raw d.tag m.src_arwnd m.src_os m.src_mis d.tsn
          (some (drop (headers_bytes + 16) p), plen))))

unfoldable pub build_sctp_init_hdr : Host → RawDraws → Frame → Option Frame
build_sctp_init_hdr h d f = init_frame h d f.packet f.plen f.state

-- The first 40 bytes of the state, which are taken for a `cookie_t`.
abbrev pub meta_cookie : Meta → List ℕ
meta_cookie m =
    le32 m.ver_tag
    ++ le32 m.init_tag
    ++ le32 m.a_rwnd
    ++ le16 m.os
    ++ le16 m.mis
    ++ le32 m.tsn
    ++ le32 m.src_ip
    ++ le32 m.dst_ip
    ++ le32 m.src_port
    ++ le32 m.dst_port
    ++ le32 m.state

abbrev pub init_ack_frame : Host → RawDraws → Option (List ℕ) → ℕ → Option Meta → Option Frame
init_ack_frame h d none plen state = none
init_ack_frame h d (some p) plen none = none
init_ack_frame h d (some p) plen (some m₀) =
    let m = record m₀ { init_tag = d.tag; tsn = d.tsn } in
    framed m (
      envelope h m m.ver_tag d.indent (
        with_fld type_init_ack (
          build_sctp_init_ack_hdr_raw m.init_tag m.src_arwnd m.src_os m.src_mis m.tsn (
            build_sctp_cookie_param_raw h (meta_cookie m)
              (some (drop (headers_bytes + 16 + cookie_hdr_bytes + cookie_bytes + 16) p), plen)))))

unfoldable pub build_sctp_init_ack_hdr : Host → RawDraws → Frame → Option Frame
build_sctp_init_ack_hdr h d f = init_ack_frame h d f.packet f.plen f.state

abbrev pub cookie_echo_frame : Host → RawDraws → Option (List ℕ) → ℕ → Option Meta → Option Frame
cookie_echo_frame h d none plen state = none
cookie_echo_frame h d (some p) plen none = none
cookie_echo_frame h d (some p) plen (some m) = framed m (
    envelope h m m.init_tag d.indent (
      with_fld type_cookie_echo (
        build_sctp_cookie_echo_hdr_raw m.add
          (some (drop (headers_bytes + fld_bytes + length m.add) p), plen))))

unfoldable pub build_sctp_cookie_echo_hdr : Host → RawDraws → Frame → Option Frame
build_sctp_cookie_echo_hdr h d f = cookie_echo_frame h d f.packet f.plen f.state

abbrev pub cookie_ack_frame : Host → RawDraws → Option (List ℕ) → ℕ → Option Meta → Option Frame
cookie_ack_frame h d none plen state = none
cookie_ack_frame h d (some p) plen none = none
cookie_ack_frame h d (some p) plen (some m) =
    framed m (
      envelope h m m.ver_tag d.indent
        (with_fld type_cookie_ack (some (drop headers_bytes p), plen)))

unfoldable pub build_sctp_cookie_ack_hdr : Host → RawDraws → Frame → Option Frame
build_sctp_cookie_ack_hdr h d f = cookie_ack_frame h d f.packet f.plen f.state
