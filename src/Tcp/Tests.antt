-- ===== src/Tcp/Tests.antt =====
-- A SYN with an option and its four bytes.
use Prim.{tt}
use libkpnet.Base.{ℕ, ◌≡◌, refl, arith, List}
use libkpnet.Wire.{HwAddr}
use libkpnet.Checks.Ones.{IsBytes}
use libkpnet.Tcp.{TcpMeta, tcp_fill_opt_mss, note_peer}
use libkpnet.Tcp.Accepted.{Headers, packet, PassesFixed, fix_check_ip_tcp-PassesFixed}

abbrev hw : HwAddr
hw = record { a0 = 2; a1 = 0; a2 = 0; a3 = 0; a4 = 0; a5 = 7 }

-- The flags stand in memory as 0x60, 0x02: six words of header, SYN.
abbrev syn : Headers
syn = record {
  gateway = hw;
  dev = hw;
  type = 8;
  ver_tos = 69;
  len = 12288;
  indent = 513;
  frag = 0;
  ttl_proto = 1721;
  src = 33663168;
  dst = 50440384;
  srcp = 20480;
  dstp = 7936;
  seq = 16777216;
  ack = 0;
  flags = 608;
  win = 61690;
  urgent = 0;
}

abbrev meta : TcpMeta
meta = record {
  state = 0;
  src_ip = 50440384;
  dst_ip = 0;
  src_port = 0;
  dst_port = 0;
  dst_seq = 0;
  src_seq = 0;
}

abbrev mss : List ℕ
mss = tcp_fill_opt_mss 1460

mss-IsBytes : IsBytes mss
mss-IsBytes = (omega arith, (omega arith, (omega arith, (omega arith, tt))))

fix_check_ip_tcp-PassesFixed_example : PassesFixed (packet syn 0 0 mss) 58 meta
fix_check_ip_tcp-PassesFixed_example =
    fix_check_ip_tcp-PassesFixed syn mss mss-IsBytes 58 meta (omega arith) refl 0

noted : (note_peer (packet syn 0 0 mss) meta).dst_seq ≡ 16777216
noted = refl
