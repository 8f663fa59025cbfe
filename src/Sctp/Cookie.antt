-- ===== src/Sctp/Cookie.antt =====
-- include/sctp.h, src/hmac_md5.c: the state cookie as it goes over the wire, and its tag.
pub mod RoundTrip
pub mod Tag
use libkpnet.Base.{
  ℕ, zero, suc, List, [], ◌∷◌, ◌++◌, length, get_or, drop, bit_xor, bit_or, ltb, if◌then◌else◌,
}
use libkpnet.Wire.{le16, le32, get16, get32}
use libkpnet.Crc.{Host}

-- `cookie_t`, of 40 bytes
pub record Cookie : Type 0 where
  pub ver_tag : ℕ
  pub init_tag : ℕ
  pub a_rwnd : ℕ
  pub os : ℕ
  pub mis : ℕ
  pub tsn : ℕ
  pub dst_tsn : ℕ
  pub src_ip : ℕ
  pub dst_ip : ℕ
  pub src_port : ℕ
  pub dst_port : ℕ

abbrev pub cookie_bytes : ℕ
cookie_bytes = 40

abbrev pub hmac_md5_key_len : ℕ
hmac_md5_key_len = 16

-- `sctp_cookie_t`, the header of the parameter
abbrev pub cookie_hdr_bytes : ℕ
cookie_hdr_bytes = 4

unfoldable pub encode_cookie : Cookie → List ℕ
encode_cookie c =
    le32 c.ver_tag
    ++ le32 c.init_tag
    ++ le32 c.a_rwnd
    ++ le16 c.os
    ++ le16 c.mis
    ++ le32 c.tsn
    ++ le32 c.dst_tsn
    ++ le32 c.src_ip
    ++ le32 c.dst_ip
    ++ le32 c.src_port
    ++ le32 c.dst_port

-- The fields behind a `cookie_t *`.
unfoldable pub cookie_at : List ℕ → Cookie
cookie_at b = record {
  ver_tag = get32 b 0;
  init_tag = get32 b 4;
  a_rwnd = get32 b 8;
  os = get16 b 12;
  mis = get16 b 14;
  tsn = get32 b 16;
  dst_tsn = get32 b 20;
  src_ip = get32 b 24;
  dst_ip = get32 b 28;
  src_port = get32 b 32;
  dst_port = get32 b 36;
}

-- The key of `build_prefilled_mac_ip_sctp_init_ack_hdr` and `sctp_process_sctp_cookie_echo`.
abbrev pub cookie_key : List ℕ
cookie_key =
    201 ∷ 171 ∷ 2 ∷ 156 ∷ 146 ∷ 191 ∷ 71 ∷ 243 ∷ 201 ∷ 171 ∷ 2 ∷ 156 ∷ 146 ∷ 191 ∷ 71 ∷ 243 ∷ []

-- A key of at most 64 bytes filled up to 64 and XORed with the byte of a pad.
unfoldable pub pad_key : (left pad : ℕ) → List ℕ → List ℕ
pad_key zero pad key = []
pad_key (suc left) pad [] = bit_xor 0 pad ∷ pad_key left pad []
pad_key (suc left) pad (k ∷ key) = bit_xor k pad ∷ pad_key left pad key

unfoldable pub hmac_md5 : Host → (text key : List ℕ) → List ℕ
hmac_md5 h text key =
    let k = if ltb 64 (length key) then h.md5 key else key in
    h.md5 (pad_key 64 92 k ++ h.md5 (pad_key 64 54 k ++ text))

-- The loop `res |= digest[i] ^ tag[i]` over `n` bytes.
unfoldable pub tag_diff : (n : ℕ) → (digest tag : List ℕ) → ℕ → ℕ
tag_diff zero digest tag res = res
tag_diff (suc n) digest tag res =
    tag_diff n (drop 1 digest) (drop 1 tag)
      (bit_or res (bit_xor (get_or digest 0 0) (get_or tag 0 0)))
