-- ===== src/Sctp/Tests.antt =====
-- A server and a client with rings of two cells, MD5 replaced by sixteen bytes that are the same
-- for every text, and the instructions of the processor by simple functions.
use libkpnet.Base.{
  ℕ, ◌+◌, ◌≡◌, refl, arith, true, false, none, some, List, [], ◌∷◌, ◌++◌, replicate,
  length-replicate,
}
use libkpnet.Xdp.{Xdp, XdpRing, Desc, no_desc}
use libkpnet.Xdp.Window.{IsXdpRing}
use libkpnet.Xdp.Produce.{Sent}
use libkpnet.Sctp.Packet.{Packet, sctp_prepare_packet, eth_send_sctp}
use libkpnet.Sctp.Packet.Sending.{pushes, IsPrepared, eth_send_sctp-Sent}
use libkpnet.Ring.{Cell, Ringbuf, create_ringbuf, push_at, no_cell, init_cells}
use libkpnet.Ring.Inv.{IsRing, create_ringbuf-IsRing}
use libkpnet.Ring.Push.{push_at-IsRing}
use libkpnet.Ring.Refine.{Holds}
use libkpnet.Wire.{get8}
use libkpnet.Crc.{Host}
use libkpnet.Sctp.{Assoc, Ulp, Net, Status, listen, init_ack_received, established}
use libkpnet.Sctp.Cookie.{hmac_md5, tag_diff}
use libkpnet.Sctp.Threads.{prepare_sctp_threads}
use libkpnet.Sctp.Cookie.Tag.{IsMd5}
use libkpnet.Sctp.Build.{Draws, chunk_at, build_prefilled_mac_ip_sctp_cookie_echo_hdr}
use libkpnet.Sctp.Build.Rings.{Sends, cookie_echo-Sends}
use libkpnet.Sctp.Process.{sctp_process_sctp_cookie_echo, sctp_process_sctp_cookie_ack, echo_diff}
use libkpnet.Sctp.Process.Echo.{Authentic, cookie_echo-Authentic}
use libkpnet.Sctp.Dispatch.{handle, chunk_of, if_ip_sctp}
use libkpnet.Sctp.Dispatch.Transitions.{Handled, if_ip_sctp-Handled, listen_stays}

abbrev host : Host
host = record { crc32qi = λ c x. c + x; crc32di = λ c x. c; md5 = λ t. replicate 16 1 }

abbrev draws : Draws
draws = record { init_tag = 5; init_tsn = 6; cookie_tag = 7; array = true; room = 4 }

abbrev config : Ulp
config = record {
  src_ip = 16777343;
  dst_ip = 0;
  src_port = 5000;
  dst_port = 0;
  src_arwnd = 65536;
  src_os = 2;
  src_mis = 2;
}

abbrev assoc : Status → Assoc
assoc s = record {
  id = 0;
  status = s;
  ver_tag = 11;
  init_tag = 12;
  a_rwnd = 13;
  dst_port = 14;
  dst_ip = 15;
  os = 256;
  mis = 256;
  tsn = 16;
  dst_tsn = 17;
  srtt = 9;
  rttvar = 9;
  rto = 9;
  cookie = [];
  base = true;
  state = true;
  threads = none;
  os_threads = 0;
  ulp = config;
}

abbrev raw : List Cell
raw = no_cell ∷ no_cell ∷ []

abbrev two_cells : Ringbuf
two_cells = record { cells = init_cells 0 raw; mask = 1; size = 2; head = 0; tail = 0 }

abbrev one_buffer : Ringbuf
one_buffer = push_at two_cells 0 4096 46

abbrev net : Net
net = record { prefilled = one_buffer; tx = two_cells; mem = λ p. replicate 200 0 }

two_cells-IsRing : IsRing 1 0 0 two_cells
unfolding create_ringbuf
two_cells-IsRing = create_ringbuf-IsRing 1 raw (omega arith) (omega arith) refl refl

two_cells-Holds : Holds 1 [] two_cells
two_cells-Holds = record { t = 0; n = 0; valid = two_cells-IsRing; contents = refl }

one_buffer-Holds : Holds 1 ((4096, 46) ∷ []) one_buffer
unfolding push_at init_cells
one_buffer-Holds = record {
  t = 0;
  n = 1;
  valid = push_at-IsRing two_cells-IsRing 4096 46 (omega arith);
  contents = refl;
}

host-IsMd5 : IsMd5 host
host-IsMd5 text = length-replicate {A = ℕ} 16 1

-- A client with a cookie of two bytes.
abbrev with_cookie : Assoc
with_cookie = record (assoc init_ack_received) { id = 2; cookie = 8 ∷ 9 ∷ [] }

cookie_echo-Sends_example :
    Sends 1 1 [] []
      (4096, 46)
      net
      (10 ∷ 0 ∷ 0 ∷ 6 ∷ 8 ∷ 9 ∷ [])
      (build_prefilled_mac_ip_sctp_cookie_echo_hdr host with_cookie net)
cookie_echo-Sends_example =
    cookie_echo-Sends [] [] (4096, 46) net one_buffer-Holds two_cells-Holds (omega arith) host
      with_cookie (omega arith) (omega (arith, length-replicate {A = ℕ} 200 0))

-- A tag of zeros is a forged one.
abbrev forged : List ℕ
forged = replicate 60 0

forged_refused :
    sctp_process_sctp_cookie_echo host draws (assoc listen) net forged 15360
    ≡ some (false, assoc listen, net)
unfolding sctp_process_sctp_cookie_echo echo_diff hmac_md5 tag_diff
forged_refused = refl

cookie_echo-Authentic_example :
    Authentic host (assoc listen) net forged 15360 (false, assoc listen, net)
cookie_echo-Authentic_example =
    cookie_echo-Authentic host draws (assoc listen) net forged 15360 (false, assoc listen, net)
      host-IsMd5 (omega (arith, length-replicate {A = ℕ} 60 0)) forged_refused

-- Headers for 127.0.0.1 and port 5000, and a chunk of four bytes.
abbrev headers : (chunk : ℕ) → List ℕ
headers t =
    replicate 30 0 ++ 127 ∷ 0 ∷ 0 ∷ 1 ∷ 0 ∷ 0 ∷ 19 ∷ 136 ∷ replicate 8 0 ++ t ∷ 0 ∷ 0 ∷ 4 ∷ []

abbrev after_ack : Assoc
after_ack = record (assoc established) {
  threads =
      some (replicate 2 (record { id = 0; ssn = 0; pos_low = 0; pos_current = 0; pos_high = 0 }));
  os_threads = 1;
}

acknowledged :
    if_ip_sctp host draws (some (headers 11)) (assoc init_ack_received) net
    ≡ some (true, after_ack, net)
unfolding if_ip_sctp handle chunk_of sctp_process_sctp_cookie_ack prepare_sctp_threads
acknowledged = refl

if_ip_sctp-Handled_example :
    Handled
      (assoc init_ack_received)
      net
      init_ack_received
      (chunk_of (get8 (headers 11) chunk_at))
      (true, after_ack, net)
if_ip_sctp-Handled_example =
    if_ip_sctp-Handled host draws (headers 11) (assoc init_ack_received) after_ack net net true
      acknowledged

listen_stays_example : (assoc listen).status ≡ listen
listen_stays_example =
    listen_stays host draws (headers 11) (assoc listen) (assoc listen) net net false refl
      (unfold if_ip_sctp handle chunk_of in refl)

abbrev tx_ring : XdpRing Desc
tx_ring = record { producer = 7; consumer = 7; slots = replicate 4096 no_desc }

abbrev socket : Xdp
socket = record {
  rx = tx_ring;
  tx = tx_ring;
  fill = record { producer = 0; consumer = 0; slots = [] };
  completion = record { producer = 0; consumer = 0; slots = [] };
}

tx_ring-IsXdpRing : IsXdpRing tx_ring
tx_ring-IsXdpRing = record {
  storage = length-replicate 4096 no_desc;
  prod_word = omega arith;
  cons_word = omega arith;
  ahead = omega arith;
}

abbrev segments : List (ℕ × ℕ)
segments = replicate 16 (0, 0)

abbrev packet : Packet
packet = record {
  umem = 65536;
  umem_hdrs_cursor = 69632;
  prefilled_umem_packet = 65536;
  prefilled_umem_packet_len = 46;
  headers = replicate 46 0;
  mtu = 1500;
  remain_plen = 1480;
  xdp_segs = segments;
  xdp_seg_count = 0;
}

eth_send_sctp-Sent_example :
    let q = pushes (sctp_prepare_packet packet) (20 ∷ []) in
    IsPrepared q
    × (n : ℕ) × (x' : Xdp) × ((eth_send_sctp 1 (λ x. x) q socket).1 ≡ some x')
    × Sent socket q.xdp_segs q.xdp_seg_count (n, x')
eth_send_sctp-Sent_example =
    eth_send_sctp-Sent packet (20 ∷ []) socket (λ x. x) (length-replicate {A = ℕ × ℕ} 16 (0, 0))
      tx_ring-IsXdpRing (omega arith)
