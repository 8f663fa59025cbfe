-- ===== src/Sctp/Data/Tests.antt =====
-- A stream of ten bytes, and one that is spent, over a packet of 200 bytes.
use libkpnet.Base.{ℕ, arith, List, [], ◌∷◌, refl, replicate}
use libkpnet.Ring.{Cell, Ringbuf, no_cell, init_cells, create_ringbuf, push_at}
use libkpnet.Ring.Inv.{IsRing, create_ringbuf-IsRing}
use libkpnet.Ring.Refine.{Holds}
use libkpnet.Sctp.Data.{Stream, Sender}
use libkpnet.Sctp.Data.Chunks.{IsReady, Writes, sctp_build_data_hdr-Writes}

abbrev ring : Ringbuf
ring = record { size = 2; mask = 1; head = 0; tail = 0; cells = no_cell ∷ no_cell ∷ [] }

abbrev stream : (pos_current : ℕ) → Stream
stream c = record {
  buffer = 1 ∷ 2 ∷ 3 ∷ 4 ∷ 5 ∷ 6 ∷ 7 ∷ 8 ∷ 9 ∷ 10 ∷ [];
  pos_low = 0;
  pos_current = c;
  pos_high = 10;
  ssn = 0;
  proto = 0;
  flags = 0;
}

abbrev sender : (pos_current : ℕ) → Sender
sender c = record {
  net = record { prefilled = ring; tx = ring; mem = λ q. replicate 200 0 };
  tsn = 5;
  ver_tag = 11;
  mtu = 100;
  remain_plen = 100;
  current_packet = 4096;
  cursor = 46;
  streams = stream c ∷ [];
  rtx = [];
}

sender-IsReady : IsReady 0 (stream 0) (sender 0)
sender-IsReady = record {
  not_null = λ e. absurd (omega (arith, e));
  enough = omega arith;
  word = omega arith;
  here = refl;
  some_data = omega arith;
  in_buffer = omega arith;
  small = omega arith;
  behind_headers = omega arith;
  in_packet = omega arith;
}

sctp_build_data_hdr-Writes_example : Writes 1 0 (stream 0) (sender 0)
sctp_build_data_hdr-Writes_example =
    sctp_build_data_hdr-Writes 0 0 (stream 0) (sender 0) sender-IsReady

abbrev raw : List Cell
raw = no_cell ∷ no_cell ∷ []

abbrev empty_ring : Ringbuf
empty_ring = record { cells = init_cells 0 raw; mask = 1; size = 2; head = 0; tail = 0 }

empty_ring-IsRing : IsRing 1 0 0 empty_ring
unfolding create_ringbuf
empty_ring-IsRing = create_ringbuf-IsRing 1 raw (omega arith) (omega arith) refl refl

empty_ring-Holds : Holds 1 [] empty_ring
empty_ring-Holds = record { t = 0; n = 0; valid = empty_ring-IsRing; contents = refl }

-- A sender without data, and with one packet left.
abbrev spent : Sender
spent = record (sender 10) {
  net = record {
    prefilled = push_at empty_ring 0 8192 46;
    tx = empty_ring;
    mem = λ q. replicate 200 0;
  };
}
