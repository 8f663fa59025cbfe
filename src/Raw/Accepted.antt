-- ===== src/Raw/Accepted.antt =====
-- What the builders build passes the checks of a receiver.
pub mod Fixed
use libkpnet.Base.{
  ℕ, ◌+◌, ◌*◌, ◌/◌, ◌%◌, ◌^◌, ◌<◌, ◌≡◌, refl, sym, ap, ◌∙◌, arith, true, Option, some, List, [],
  ◌∷◌, ◌++◌, length, take, take-append_left, drop, u16, bswap16, bswap32, le→ltb, eq→==,
}
use libkpnet.Wire.{fld_bytes, le16, le32, get16, write_at, hw_bytes, read16, read32}
use libkpnet.Crc.{Host, generate_crc32c, generate_crc32c_on_crc32c, not_u32}
use libkpnet.Checks.{ip_checksum}
use libkpnet.Checks.Verify.{not_u16, sctp_crc, check_sctp, sctp_check_checksums}
use libkpnet.Sctp.{type_init, type_init_ack, type_cookie_echo, type_cookie_ack}
use libkpnet.Sctp.Cookie.{cookie_key, hmac_md5}
use libkpnet.Sctp.Cookie.Tag.{IsMd5, length-hmac_md5}
use libkpnet.Raw.{
  Frame, RawDraws, framed, meta_cookie, headers_bytes, build_sctp_init_hdr, build_sctp_init_hdr_raw,
  build_sctp_cookie_ack_hdr, build_sctp_cookie_echo_hdr, build_sctp_cookie_echo_hdr_raw,
  build_sctp_init_ack_hdr, build_sctp_init_ack_hdr_raw, build_sctp_cookie_param_raw, Meta, cmn_hdr,
  ip_hdr, proto_sctp, ethertype_ip, envelope, with_fld, build_sctp_fld_hdr_raw,
  build_sctp_cmn_hdr_raw, build_ip_raw, build_mac_raw,
}

-- The three headers with their checks, in front of the chunk.
abbrev pub sealed : Meta → (tag indent len check crc : ℕ) → List ℕ → List ℕ
sealed m tag indent len check crc rest =
    hw_bytes m.gateway
    ++ hw_bytes m.dev
    ++ le16 (bswap16 ethertype_ip)
    ++ 69 ∷ bswap16 2 % 256 ∷ le16 (bswap16 len)
    ++ le16 indent
    ++ le16 0
    ++ 181 ∷ proto_sctp ∷ le16 check
    ++ le32 m.src_ip
    ++ le32 m.dst_ip
    ++ le16 (bswap16 m.src_port)
    ++ le16 (bswap16 m.dst_port)
    ++ le32 tag
    ++ le32 crc
    ++ rest

pub ip_same :
    (m : Meta) (tag indent len crc : ℕ) (rest : List ℕ)
    → ip_checksum (drop 14 (sealed m tag indent len 0 crc rest)) 20
      ≡ ip_checksum (ip_hdr len indent m.src_ip m.dst_ip proto_sctp) 20
unfolding ip_checksum
ip_same m tag indent len crc rest = refl

read16-bswap16 : (v : ℕ) → v < 65536 → bswap16 (bswap16 v % 256 + 256 * (bswap16 v / 256 % 256)) ≡ v
read16-bswap16 v h = omega arith

abbrev pub chunk_hdr : (type n : ℕ) → List ℕ
chunk_hdr type n = type ∷ 0 ∷ le16 (bswap16 n)

module _ (h : Host) (m : Meta) (tag indent type n check crc : ℕ) (body tail : List ℕ)
    (size : n ≡ length body + 4) (small : n + 32 < 65536) (word16 : check < 65536)
    (word32 : crc < 2 ^ 32)
    (ip_ok : check ≡ not_u16 (ip_checksum (ip_hdr (n + 32) indent m.src_ip m.dst_ip proto_sctp) 20))
    (sctp_ok : crc
      ≡ not_u32 (
          generate_crc32c_on_crc32c h
            (cmn_hdr m.src_port m.dst_port tag ++ chunk_hdr type n ++ body)
            4294967295)) where
  abbrev whole : List ℕ
  whole = sealed m tag indent (n + 32) check crc (chunk_hdr type n ++ body ++ tail)

  pub crc_same :
      sctp_crc h 34 (sealed m tag indent (n + 32) check 0 (chunk_hdr type n ++ body ++ tail))
      ≡ generate_crc32c_on_crc32c h
          (cmn_hdr m.src_port m.dst_port tag ++ chunk_hdr type n ++ body)
          4294967295
  crc_same =
      ap (λ t. generate_crc32c_on_crc32c h t 4294967295)
        (take-append_left _ (cmn_hdr m.src_port m.dst_port tag ++ chunk_hdr type n ++ body) tail
          (omega (arith, size, read16-bswap16 n (omega arith))))

  second : check_sctp h whole ≡ (true, whole)
  unfolding check_sctp write_at
  second =
      rw
        (
          le→ltb (bswap16 (get16 whole 16)) 36 (omega (arith, read16-bswap16 (n + 32) small)),
          read32 crc word32,
          eq→== crc
              (not_u32 (
                sctp_crc h 34
                  (sealed m tag indent (n + 32) check 0 (chunk_hdr type n ++ body ++ tail))))
              (sctp_ok ∙ ap not_u32 (sym crc_same)),
        )
        refl

  pub verified : sctp_check_checksums h whole (n + 46) ≡ (true, whole)
  unfolding sctp_check_checksums write_at
  verified =
      rw
        (
          le→ltb (n + 46) 46 (omega arith),
          read16 check word16,
          eq→== check
              (not_u16 (
                ip_checksum
                  (drop 14 (sealed m tag indent (n + 32) 0 crc (chunk_hdr type n ++ body ++ tail)))
                  20))
              (ip_ok ∙ ap not_u16 (sym (ip_same m tag indent (n + 32) crc _))),
        )
        second

pub not_u16-word : (x : ℕ) → not_u16 x < 65536
not_u16-word x = omega arith

pub not_u32-word : (x : ℕ) → not_u32 x < 2 ^ 32
not_u32-word x = omega arith

-- The two checks of a packet around a chunk.
abbrev pub ip_check : Meta → (indent n : ℕ) → ℕ
ip_check m indent n = not_u16 (ip_checksum (ip_hdr (n + 32) indent m.src_ip m.dst_ip proto_sctp) 20)

abbrev sctp_check : Host → Meta → (tag type n : ℕ) → List ℕ → ℕ
sctp_check h m tag type n body =
    generate_crc32c h (cmn_hdr m.src_port m.dst_port tag ++ chunk_hdr type n ++ body)

module _ (h : Host) (m : Meta) (tag indent type n : ℕ) (body tail : List ℕ)
    (size : n ≡ length body + 4) (small : n + 46 < 65536) where
  crc_part :
      take (n + 12) (cmn_hdr m.src_port m.dst_port tag ++ chunk_hdr type n ++ body ++ tail)
      ≡ cmn_hdr m.src_port m.dst_port tag ++ chunk_hdr type n ++ body
  crc_part =
      take-append_left (n + 12) (cmn_hdr m.src_port m.dst_port tag ++ chunk_hdr type n ++ body) tail
        (omega (arith, size))

  built : envelope h m tag indent (with_fld type (some (body ++ tail), length body)) ≡ (
    some (
        sealed m tag indent
          (n + 32)
          (ip_check m indent n)
          (sctp_check h m tag type n body)
          (chunk_hdr type n ++ body ++ tail)),
    n + 46,
  )
  unfolding build_sctp_fld_hdr_raw build_sctp_cmn_hdr_raw build_ip_raw build_mac_raw write_at
  built =
      let e₀ : u16 (length body + 4) ≡ n = omega arith in
      let e₁ : u16 (n + 12) ≡ n + 12 = omega arith in
      let e₂ : u16 (n + 12 + 20) ≡ n + 32 = omega arith in
      let e₃ : u16 (n + 32 + 14) ≡ n + 46 = omega arith in rw (e₀, e₁, crc_part, e₂, e₃) refl

-- The builder returns a frame, and a receiver of its packet finds both checks right.
abbrev pub Passes : Host → Option Frame → Type 0
Passes h f =
    (g : Frame) × (p : List ℕ) × (f ≡ some g)
    × (g.packet ≡ some p)
    × (sctp_check_checksums h p g.plen ≡ (true, p))

module _ (h : Host) (m : Meta) (tag indent type : ℕ) (body tail : List ℕ) where
  passes :
      length body + 50 < 65536
      → Passes h
          (framed m (envelope h m tag indent (with_fld type (some (body ++ tail), length body))))
  unfolding generate_crc32c
  passes small =
      let n = length body + 4 in
      (
        _,
        _,
        ap (framed m) (built h m tag indent type n body tail refl (omega arith)),
        refl,
        verified h m tag indent type n (ip_check m indent n) (sctp_check h m tag type n body) body
            tail refl (omega arith) (omega arith) (not_u32-word _) refl refl,
      )

-- A new frame of the packet buffer `p`.
abbrev pub new_frame : List ℕ → Meta → Frame
new_frame p m = record { packet = some p; plen = 0; state = some m }

module _ (h : Host) (d : RawDraws) (p : List ℕ) (m : Meta) where
  build_sctp_init_hdr-Passes : Passes h (build_sctp_init_hdr h d (new_frame p m))
  unfolding build_sctp_init_hdr build_sctp_init_hdr_raw
  build_sctp_init_hdr-Passes =
      passes h m 0 d.indent type_init
        (le32 (bswap32 d.tag)
          ++ le32 (bswap32 m.src_arwnd)
          ++ le16 (bswap16 m.src_os)
          ++ le16 (bswap16 m.src_mis)
          ++ le32 (bswap32 d.tsn))
        (drop 66 p) (omega arith)

  build_sctp_cookie_ack_hdr-Passes : Passes h (build_sctp_cookie_ack_hdr h d (new_frame p m))
  unfolding build_sctp_cookie_ack_hdr
  build_sctp_cookie_ack_hdr-Passes =
      passes h m m.ver_tag d.indent type_cookie_ack [] (drop 50 p) (omega arith)

  build_sctp_cookie_echo_hdr-Passes :
      length m.add + 50 < 65536 → Passes h (build_sctp_cookie_echo_hdr h d (new_frame p m))
  unfolding build_sctp_cookie_echo_hdr build_sctp_cookie_echo_hdr_raw
  build_sctp_cookie_echo_hdr-Passes small =
      let e : u16 (0 + length m.add) ≡ length m.add = omega arith in
      rw e (
        passes h m m.init_tag d.indent type_cookie_echo m.add
          (drop (headers_bytes + fld_bytes + length m.add) p) small)

  build_sctp_init_ack_hdr-Passes : IsMd5 h → Passes h (build_sctp_init_ack_hdr h d (new_frame p m))
  unfolding build_sctp_init_ack_hdr build_sctp_init_ack_hdr_raw build_sctp_cookie_param_raw
  build_sctp_init_ack_hdr-Passes v =
      let m' = record m { init_tag = d.tag; tsn = d.tsn } in
      let tag = hmac_md5 h (meta_cookie m') cookie_key in
      let len = length-hmac_md5 h (meta_cookie m') cookie_key v in
      let param = le16 (bswap16 7) ++ le16 (bswap16 60) ++ meta_cookie m' ++ tag in
      let body =
        le32 (bswap32 d.tag)
        ++ le32 (bswap32 m.src_arwnd)
        ++ le16 (bswap16 m.src_os)
        ++ le16 (bswap16 m.src_mis)
        ++ le32 (bswap32 d.tsn)
        ++ param in
      let e : u16 (u16 (0 + length param) + 16) ≡ length body = omega (arith, len) in
      rw e (passes h m' m.ver_tag d.indent type_init_ack body (drop 126 p) (omega (arith, len)))

  -- Every packet that one of the four builders makes in a new frame passes the receiver's checks of
  -- the IPv4 checksum and the CRC32C, which leave it as it is. For the INIT ACK, MD5 gives 16 bytes;
  -- for the COOKIE ECHO, the packet is below 64 KiB.
  pub raw_builders-Passes :
      IsMd5 h
      → length m.add + 50 < 65536
      → Passes h (build_sctp_init_hdr h d (new_frame p m))
        × Passes h (build_sctp_init_ack_hdr h d (new_frame p m))
        × Passes h (build_sctp_cookie_echo_hdr h d (new_frame p m))
        × Passes h (build_sctp_cookie_ack_hdr h d (new_frame p m))
  raw_builders-Passes md5 small = (
    build_sctp_init_hdr-Passes,
    build_sctp_init_ack_hdr-Passes md5,
    build_sctp_cookie_echo_hdr-Passes small,
    build_sctp_cookie_ack_hdr-Passes,
  )
