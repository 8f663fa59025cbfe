-- ===== src/Raw/Prefill/Tests.antt =====
-- A buffer of 100 bytes, and a new association.
use libkpnet.Base.{ℕ, ◌≤◌, ◌↔◌, ◌≡◌, refl, arith, false, some, List, [], ◌++◌, replicate}
use libkpnet.Wire.{HwAddr}
use libkpnet.Crc.{Host}
use libkpnet.Checks.{ip_checksum, ip_loop}
use libkpnet.Checks.Verify.{sctp_check_checksums}
use libkpnet.Xdp.{Xdp}
use libkpnet.Sctp.{Ulp}
use libkpnet.Sctp.Packet.{Packet, eth_send_sctp}
use libkpnet.Sctp.Build.Patched.{IpPasses}
use libkpnet.Raw.{Meta, RawDraws}
use libkpnet.Raw.Prefill.Init.{both, check_of, build_prefilled_sctp_init_hdr-IpPasses}
use libkpnet.Raw.Prefill.{prefill_mac_ip_sctp, prefill_sctp_mac_ip}
use libkpnet.Raw.Prefill.Checks.{sent_ip, eth_send_sctp-refused}

abbrev host : Host
host = record { crc32qi = λ c x. c; crc32di = λ c x. c; md5 = λ t. [] }

abbrev hw : HwAddr
hw = record { a0 = 2; a1 = 0; a2 = 0; a3 = 0; a4 = 0; a5 = 9 }

abbrev meta : Meta
meta = record {
  ver_tag = 11;
  init_tag = 12;
  a_rwnd = 13;
  os = 2;
  mis = 2;
  tsn = 16;
  src_ip = 16777343;
  dst_ip = 0;
  src_port = 5000;
  dst_port = 80;
  state = 1;
  src_arwnd = 65536;
  src_os = 2;
  src_mis = 2;
  dev = hw;
  gateway = hw;
  add = [];
}

abbrev ulp : Ulp
ulp = record {
  src_ip = 16777343;
  dst_ip = 33554559;
  src_port = 5000;
  dst_port = 80;
  src_arwnd = 65536;
  src_os = 2;
  src_mis = 2;
}

abbrev packet : Packet
packet = record {
  umem = 65536;
  umem_hdrs_cursor = 69632;
  prefilled_umem_packet = 65536;
  prefilled_umem_packet_len = 0;
  headers = [];
  mtu = 1454;
  remain_plen = 1434;
  xdp_segs = replicate 16 (0, 0);
  xdp_seg_count = 2;
}

abbrev socket : Xdp
socket = record {
  rx = record { producer = 0; consumer = 0; slots = [] };
  tx = record { producer = 0; consumer = 0; slots = [] };
  fill = record { producer = 0; consumer = 0; slots = [] };
  completion = record { producer = 0; consumer = 0; slots = [] };
}

sum_there : ◌≡◌ {A = ℕ} (ip_checksum (sent_ip 7 52 ulp) 20) 48855
unfolding ip_checksum ip_loop
sum_there = refl

eth_send_sctp-refused_example :
    (sctp_check_checksums host
      ((eth_send_sctp 1 (λ x. x) (prefill_sctp_mac_ip 7 ulp 2 2 packet) socket).0.headers
        ++ replicate 20 1)
      66).0
    ≡ false
eth_send_sctp-refused_example =
    eth_send_sctp-refused host 1 (λ x. x) 7 2 2 66 ulp packet socket (replicate 20 1) (omega arith)
      (λ e. absurd (omega (arith, e, sum_there)))

abbrev init_draws : RawDraws
init_draws = record { tag = 70000; tsn = 70001; indent = 5 }

build_prefilled_sctp_init_hdr-IpPasses_example :
    (r : List ℕ) × (both host init_draws 7
        (replicate 100 0)
        meta
        (prefill_mac_ip_sctp 7 (some (replicate 100 0)) (some meta))
      ≡ some (r, 66))
    × (IpPasses r ↔ (13312 ≤ check_of 7 meta))
build_prefilled_sctp_init_hdr-IpPasses_example =
    build_prefilled_sctp_init_hdr-IpPasses host init_draws 7 (replicate 100 0) meta (omega arith)
