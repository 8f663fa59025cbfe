-- ===== src/Legacy/Tests.antt =====
-- A client at port 4000 and a server at port 5000, with a parameter for the CRC instruction.
use libkpnet.Base.{
  ℕ, ◌+◌, ◌≡◌, refl, arith, Bool, false, Option, none, some, List, [], ◌∷◌, replicate, bswap16,
}
use libkpnet.Wire.{write_at}
use libkpnet.Crc.{Host, generate_crc32c, generate_crc32c_on_crc32c, crc_bytes, crc_words}
use libkpnet.Sctp.{Status, listen, init_ack_sent, type_cookie_echo}
use libkpnet.Legacy.{Conn, TagDraws, build_sctp_hdr_raw, if_sctp, if_ipv4, if_ipv4_sctp}
use libkpnet.Legacy.Exchange.{Exchanged, build_sctp_hdr_raw-Exchanged}

abbrev summing : Host
summing = record { crc32qi = λ c x. c + x; crc32di = λ c x. c; md5 = λ t. replicate 16 1 }

abbrev side : (port peer : ℕ) → Status → Conn
side port peer status = record {
  payload = replicate 20 0;
  srcport = bswap16 port;
  dstport = bswap16 peer;
  src_ver_tag = 0;
  dst_ver_tag = 0;
  src_tsn = 0;
  dst_tsn = 0;
  dest_a_rwnd = 0;
  self_os = 0;
  self_mis = 0;
  dest_os = 0;
  dest_mis = 0;
  hmac = 7;
  errors = [];
  status = status;
  src_addr = 1;
  dest_addr = 2;
}

abbrev of_client : TagDraws
of_client = record { tsn = 11; tag = 12 }

abbrev of_server : TagDraws
of_server = record { tsn = 21; tag = 22 }

build_sctp_hdr_raw-Exchanged_example :
    Exchanged summing of_client of_server 4000 5000 1 2 65536 3 4 65536
      (side 4000 5000 listen)
      (side 5000 4000 listen)
      (replicate 40 0)
      (replicate 40 0)
build_sctp_hdr_raw-Exchanged_example =
    build_sctp_hdr_raw-Exchanged summing of_client of_server 4000 5000 1 2 65536 3 4 65536
      (side 4000 5000 listen) (side 5000 4000 listen) (replicate 40 0) (replicate 40 0)
      (omega arith) (omega arith) (omega arith) (omega arith) refl refl refl refl refl

abbrev errors_of : Option (Bool × Conn × List ℕ) → List ℕ
errors_of none = []
errors_of (some (ok, c, p)) = c.errors

abbrev echo : Conn → List ℕ
echo c =
    (build_sctp_hdr_raw summing of_client 4000 5000 type_cookie_echo 0 0 0 c (replicate 40 0)).2

-- A cookie of more than 32 bits is stale whatever is echoed, and the second one cannot be noted.
too_long_a_cookie :
    errors_of (
      if_sctp summing
        (echo (record (side 4000 5000 listen) { hmac = 4294967296 }))
        40
        (record (side 5000 4000 init_ack_sent) { hmac = 4294967296 }))
    ≡ 3 ∷ []
unfolding build_sctp_hdr_raw if_sctp write_at generate_crc32c generate_crc32c_on_crc32c crc_bytes
    crc_words
too_long_a_cookie = refl

same_cookie :
    errors_of (if_sctp summing (echo (side 4000 5000 listen)) 40 (side 5000 4000 init_ack_sent))
    ≡ []
unfolding build_sctp_hdr_raw if_sctp write_at generate_crc32c generate_crc32c_on_crc32c crc_bytes
    crc_words
same_cookie = refl

too_short :
    if_ipv4_sctp summing (replicate 20 0) 20 (side 1 2 listen)
    ≡ some (false, side 1 2 listen, replicate 20 0)
unfolding if_ipv4_sctp if_ipv4
too_short = refl
