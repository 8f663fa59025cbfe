-- ===== src/Receive/Tests.antt =====
-- Four buffers, of which one packet of two reaches the other ring.
use libkpnet.Base.{
  ℕ, ◌+◌, ◌≡◌, refl, arith, Option, none, some, List, [], ◌∷◌, ◌++◌, replicate, map,
}
use libkpnet.Wire.{HwAddr, write_at}
use libkpnet.Crc.{Host, generate_crc32c_on_crc32c, crc_words, crc_bytes}
use libkpnet.Checks.{ip_checksum, ip_loop}
use libkpnet.Checks.Verify.{fix_check_ip_sctp, sctp_check_checksums, check_sctp}
use libkpnet.Ring.{Cell, Ringbuf, no_cell, init_cells, create_ringbuf, push_at}
use libkpnet.Ring.Queue.{Queue}
use libkpnet.Ring.Refine.{Holds}
use libkpnet.Ring.Inv.{create_ringbuf-IsRing}
use libkpnet.Ring.Push.{push_at-IsRing}
use libkpnet.Raw.{Meta}
use libkpnet.Raw.Accepted.{sealed, chunk_hdr}
use libkpnet.Receive.{Rx, goes_on, got, recv_sctp_packet}
use libkpnet.Receive.Handed.{Walk, walk_at, walk, Shows, recv_sctp_packet-Shows}

abbrev host : Host
host = record { crc32qi = λ c x. c + x; crc32di = λ c x. c; md5 = λ t. replicate 16 1 }

abbrev hw : HwAddr
hw = record { a0 = 2; a1 = 0; a2 = 0; a3 = 0; a4 = 0; a5 = 9 }

abbrev meta : Meta
meta = record {
  ver_tag = 11;
  init_tag = 12;
  a_rwnd = 13;
  os = 2;
  mis = 2;
  tsn = 16;
  src_ip = 16777343;
  dst_ip = 33554559;
  src_port = 5000;
  dst_port = 80;
  state = 1;
  src_arwnd = 65536;
  src_os = 2;
  src_mis = 2;
  dev = hw;
  gateway = hw;
  add = [];
}

abbrev raw : List Cell
raw = no_cell ∷ no_cell ∷ []

abbrev empty_ring : Ringbuf
empty_ring = record { cells = init_cells 0 raw; mask = 1; size = 2; head = 0; tail = 0 }

empty_ring-Holds : Holds 1 [] empty_ring
unfolding create_ringbuf
empty_ring-Holds = record {
  t = 0;
  n = 0;
  valid = create_ringbuf-IsRing 1 raw (omega arith) (omega arith) refl refl;
  contents = refl;
}

abbrev buffers : Ringbuf
buffers = push_at (push_at empty_ring 0 4096 2048) 1 8192 2048

buffers-Holds : Holds 1 ((4096, 2048) ∷ (8192, 2048) ∷ []) buffers
unfolding push_at init_cells empty_ring-Holds
buffers-Holds = record {
  t = 0;
  n = 2;
  valid =
      push_at-IsRing (push_at-IsRing empty_ring-Holds.valid 4096 2048 (omega arith)) 8192 2048
        (omega arith);
  contents = refl;
}

abbrev fresh : Rx
fresh = record { allocator = buffers; rb = empty_ring; mem = λ p. replicate 60 0; buffer = 0 }

-- A COOKIE ACK, after a packet of two bytes.
abbrev packets : List (List ℕ)
packets =
    (1 ∷ 2 ∷ []) ∷ fix_check_ip_sctp host (sealed meta 11 5 0 99 0 (chunk_hdr 11 4 ++ [])) 1466 ∷ []

abbrev arrived : Option Walk
arrived = walk host packets (walk_at (record fresh { buffer = 4096 }) ((8192, 2048) ∷ []) [])

abbrev handed_of : Option Walk → Queue
handed_of none = []
handed_of (some w) = w.handed

walked : handed_of arrived ≡ (4096, 50) ∷ []
unfolding walk fix_check_ip_sctp sctp_check_checksums check_sctp ip_checksum ip_loop write_at
    generate_crc32c_on_crc32c crc_words crc_bytes
walked = refl

abbrev some_of : Option Walk → Walk
some_of none = walk_at fresh [] []
some_of (some w) = w

recv_sctp_packet-Shows_example :
    (s' : Rx) × (recv_sctp_packet host 1 (λ s. s) (map got packets) fresh ≡ some (goes_on s'))
    × Shows 1 1 (some_of arrived) s'
unfolding walk fix_check_ip_sctp sctp_check_checksums check_sctp ip_checksum ip_loop write_at
    generate_crc32c_on_crc32c crc_words crc_bytes
recv_sctp_packet-Shows_example =
    recv_sctp_packet-Shows host 0 (λ s. s) 1 1 packets fresh 4096 2048 ((8192, 2048) ∷ []) []
      (some_of arrived) buffers-Holds empty_ring-Holds (omega arith) refl
