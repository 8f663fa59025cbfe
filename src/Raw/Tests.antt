-- ===== src/Raw/Tests.antt =====
-- A frame of 200 bytes, with MD5 replaced by sixteen bytes that are the same for every text.
use libkpnet.Base.{ℕ, ◌≡◌, refl, true, ◌+◌, arith, List, [], ◌∷◌, ◌++◌, replicate, length-replicate}
use libkpnet.Wire.{HwAddr}
use libkpnet.Crc.{Host}
use libkpnet.Sctp.Cookie.Tag.{IsMd5}
use libkpnet.Raw.{
  Meta, RawDraws, build_sctp_init_hdr, build_sctp_init_ack_hdr, build_sctp_cookie_echo_hdr,
  build_sctp_cookie_ack_hdr,
}
use libkpnet.Checks.Verify.{fix_check_ip_sctp, sctp_check_checksums}
use libkpnet.Raw.Accepted.Fixed.{fix_check_ip_sctp-verified}
use libkpnet.Raw.Accepted.{sealed, chunk_hdr, Passes, new_frame, raw_builders-Passes}

abbrev host : Host
host = record { crc32qi = λ c x. c + x; crc32di = λ c x. c; md5 = λ t. replicate 16 1 }

host-IsMd5 : IsMd5 host
host-IsMd5 text = length-replicate {A = ℕ} 16 1

abbrev hw : HwAddr
hw = record { a0 = 2; a1 = 0; a2 = 0; a3 = 0; a4 = 0; a5 = 9 }

abbrev meta : Meta
meta = record {
  ver_tag = 11;
  init_tag = 12;
  a_rwnd = 13;
  os = 2;
  mis = 2;
  tsn = 16;
  src_ip = 16777343;
  dst_ip = 33554559;
  src_port = 5000;
  dst_port = 80;
  state = 1;
  src_arwnd = 65536;
  src_os = 2;
  src_mis = 2;
  dev = hw;
  gateway = hw;
  add = 7 ∷ 8 ∷ 9 ∷ [];
}

abbrev draws : RawDraws
draws = record { tag = 70000; tsn = 70001; indent = 5 }

abbrev buffer : List ℕ
buffer = replicate 200 0

raw_builders-Passes_example :
    Passes host (build_sctp_init_hdr host draws (new_frame buffer meta))
    × Passes host (build_sctp_init_ack_hdr host draws (new_frame buffer meta))
    × Passes host (build_sctp_cookie_echo_hdr host draws (new_frame buffer meta))
    × Passes host (build_sctp_cookie_ack_hdr host draws (new_frame buffer meta))
raw_builders-Passes_example = raw_builders-Passes host draws buffer meta host-IsMd5 (omega arith)

-- A COOKIE ACK with the length 0 and a wrong IPv4 check.
fix_check_ip_sctp-verified_example :
    let p = fix_check_ip_sctp host (sealed meta 11 5 0 99 0 (chunk_hdr 11 4 ++ buffer)) 1466 in
    sctp_check_checksums host p 50 ≡ (true, p)
fix_check_ip_sctp-verified_example =
    fix_check_ip_sctp-verified host meta 11 5 11 4 0 99 1466 [] buffer refl refl
