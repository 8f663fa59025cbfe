-- ===== src/Sctp/Cookie/RoundTrip.antt =====
-- What is written into a cookie is read back from it.
use libkpnet.Base.{ℕ, ◌+◌, ◌*◌, ◌/◌, ◌%◌, ◌^◌, ◌<◌, ◌≡◌, refl, arith, List, ◌++◌, length}
use libkpnet.Sctp.Cookie.{Cookie, encode_cookie, cookie_at, cookie_bytes}

-- Each field fits its width.
pub record IsCookie (c : Cookie) : Type 0 where
  pub ver_tag : c.ver_tag < 2 ^ 32
  pub init_tag : c.init_tag < 2 ^ 32
  pub a_rwnd : c.a_rwnd < 2 ^ 32
  pub os : c.os < 2 ^ 16
  pub mis : c.mis < 2 ^ 16
  pub tsn : c.tsn < 2 ^ 32
  pub dst_tsn : c.dst_tsn < 2 ^ 32
  pub src_ip : c.src_ip < 2 ^ 32
  pub dst_ip : c.dst_ip < 2 ^ 32
  pub src_port : c.src_port < 2 ^ 32
  pub dst_port : c.dst_port < 2 ^ 32

join16 : (x : ℕ) → x < 2 ^ 16 → x % 256 + 256 * (x / 256 % 256) ≡ x
join16 x h = omega (arith, h)

join32 :
    (x : ℕ)
    → x < 2 ^ 32
    → x % 256 + 256 * (x / 256 % 256) + 65536 * (x / 65536 % 256) + 16777216 * (x / 16777216 % 256)
      ≡ x
join32 x h = omega (arith, h)

-- The first 40 of the encoded bytes are the cookie again, whatever follows them.
pub cookie_at-encode_cookie :
    (c : Cookie) (rest : List ℕ) → IsCookie c → cookie_at (encode_cookie c ++ rest) ≡ c
unfolding cookie_at encode_cookie
cookie_at-encode_cookie c rest v = λ i. record {
  ver_tag = join32 c.ver_tag v.ver_tag i;
  init_tag = join32 c.init_tag v.init_tag i;
  a_rwnd = join32 c.a_rwnd v.a_rwnd i;
  os = join16 c.os v.os i;
  mis = join16 c.mis v.mis i;
  tsn = join32 c.tsn v.tsn i;
  dst_tsn = join32 c.dst_tsn v.dst_tsn i;
  src_ip = join32 c.src_ip v.src_ip i;
  dst_ip = join32 c.dst_ip v.dst_ip i;
  src_port = join32 c.src_port v.src_port i;
  dst_port = join32 c.dst_port v.dst_port i;
}

pub length-encode_cookie : (c : Cookie) → length (encode_cookie c) ≡ cookie_bytes
unfolding encode_cookie
length-encode_cookie c = refl
