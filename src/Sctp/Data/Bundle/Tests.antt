-- ===== src/Sctp/Data/Bundle/Tests.antt =====
-- A stream of ten bytes, over a packet of 200 bytes.
use libkpnet.Base.{◌+◌, ◌≡◌, refl, arith, false, none, some, List, [], ◌∷◌, replicate}
use libkpnet.Ring.{Cell, Ringbuf, no_cell, init_cells, create_ringbuf, push_at}
use libkpnet.Ring.Inv.{IsRing, create_ringbuf-IsRing}
use libkpnet.Ring.Push.{push_at-IsRing}
use libkpnet.Ring.Refine.{Holds}
use libkpnet.Crc.{Host}
use libkpnet.Sctp.Data.{Stream}
use libkpnet.Sctp.Data.Bundle.{Bundler, build_prefilled_mac_ip_sctp_data_hdr}
use libkpnet.Sctp.Data.Bundle.Sends.{IsShort, Waits, build_prefilled_mac_ip_sctp_data_hdr-Waits}

abbrev summing : Host
summing = record { crc32qi = λ c x. c + x; crc32di = λ c x. c; md5 = λ t. replicate 16 1 }

abbrev raw : List Cell
raw = no_cell ∷ no_cell ∷ []

abbrev empty_ring : Ringbuf
empty_ring = record { cells = init_cells 0 raw; mask = 1; size = 2; head = 0; tail = 0 }

abbrev one_packet : Ringbuf
one_packet = push_at empty_ring 0 4096 46

empty_ring-IsRing : IsRing 1 0 0 empty_ring
unfolding create_ringbuf
empty_ring-IsRing = create_ringbuf-IsRing 1 raw (omega arith) (omega arith) refl refl

empty_ring-Holds : Holds 1 [] empty_ring
empty_ring-Holds = record { t = 0; n = 0; valid = empty_ring-IsRing; contents = refl }

one_packet-Holds : Holds 1 ((4096, 46) ∷ []) one_packet
unfolding push_at init_cells
one_packet-Holds = record {
  t = 0;
  n = 1;
  valid = push_at-IsRing empty_ring-IsRing 4096 46 (omega arith);
  contents = refl;
}

abbrev ten_bytes : Stream
ten_bytes = record {
  buffer = 1 ∷ 2 ∷ 3 ∷ 4 ∷ 5 ∷ 6 ∷ 7 ∷ 8 ∷ 9 ∷ 10 ∷ [];
  pos_low = 0;
  pos_current = 0;
  pos_high = 10;
  ssn = 0;
  proto = 0;
  flags = 0;
}

abbrev bundler : Bundler
bundler = record {
  net = record { prefilled = one_packet; tx = empty_ring; mem = λ q. replicate 200 0 };
  bundling = empty_ring;
  tsn = 5;
  ver_tag = 11;
  os_threads = some ten_bytes ∷ none ∷ [];
}

ten_bytes-IsShort : IsShort 0 ten_bytes (4096, 46) bundler
ten_bytes-IsShort = record {
  here = refl;
  some_data = omega arith;
  in_buffer = omega arith;
  word = omega arith;
  short = omega arith;
  in_packet = omega arith;
}

build_prefilled_mac_ip_sctp_data_hdr-Waits_example :
    Waits 1 1 [] summing 0 ten_bytes (4096, 46) bundler
build_prefilled_mac_ip_sctp_data_hdr-Waits_example =
    build_prefilled_mac_ip_sctp_data_hdr-Waits summing [] 0 ten_bytes (4096, 46) bundler
      empty_ring-Holds one_packet-Holds ten_bytes-IsShort

no_thread : build_prefilled_mac_ip_sctp_data_hdr summing 1 bundler ≡ some (false, bundler)
unfolding build_prefilled_mac_ip_sctp_data_hdr
no_thread = refl
