-- ===== src/Client/Tests.antt =====
-- A client with 256 blocks of memory, a kernel that does nothing, and a clock that is read twice a
-- second until it stands still.
use Prim.{tt}
use libkpnet.Base.{
  ℕ, zero, suc, ◌+◌, ◌*◌, ◌≡◌, refl, arith, true, some, List, [], ◌∷◌, replicate, length,
  length-replicate, min,
}
use libkpnet.Xdp.{Xdp, XdpRing, Desc, no_desc}
use libkpnet.Xdp.Window.{IsXdpRing}
use libkpnet.Ring.{Cell, Ringbuf, no_cell}
use libkpnet.Ring.Allocator.{
  AllThere, create_allocator, create_allocator-Holds, blocks, block_bytes,
}
use libkpnet.Ring.Refine.{Holds}
use libkpnet.Sctp.{Ulp}
use libkpnet.Sctp.Build.{Draws}
use libkpnet.Sctp.Packet.{Packet}
use libkpnet.Timer.{Callback, Wheel, create_ringtimer}
use libkpnet.Client.{Client, client_start}
use libkpnet.Client.GivesUp.{IsClock, Stops}
use libkpnet.Client.Starts.{client_loop-Stops}

abbrev raw : List Cell
raw = replicate 256 no_cell

-- `n` blocks of memory from an address on.
abbrev block_list : (n a : ℕ) → List ℕ
block_list zero a = []
block_list (suc n) a = suc a ∷ block_list n (a + 64)

length-block_list : (n a : ℕ) → length (block_list n a) ≡ n
length-block_list zero a = refl
length-block_list (suc n) a = omega (arith, length-block_list n (a + 64))

block_list-AllThere : (n a : ℕ) → AllThere (block_list n a)
block_list-AllThere zero a = tt
block_list-AllThere (suc n) a = ((λ e. absurd (omega (arith, e))), block_list-AllThere n (a + 64))

abbrev Made : Type 0
Made =
    (rb : Ringbuf) × (create_allocator 64 true (some raw) (block_list 256 4095) 64 256
      ≡ some (some rb))
    × Holds 8 (blocks (block_bytes 64 64) (block_list 256 4095)) rb

made : Made
made =
    create_allocator-Holds 64 8 raw (block_list 256 4095) 64 (omega arith) (omega arith)
      (length-replicate 256 no_cell) (length-block_list 256 4095) (block_list-AllThere 256 4095)

abbrev tx_ring : XdpRing Desc
tx_ring = record { slots = replicate 4096 no_desc; producer = 0; consumer = 0 }

tx_ring-IsXdpRing : IsXdpRing tx_ring
tx_ring-IsXdpRing = record {
  storage = length-replicate 4096 no_desc;
  prod_word = omega arith;
  cons_word = omega arith;
  ahead = omega arith;
}

abbrev socket : Xdp
socket = record {
  rx = tx_ring;
  tx = tx_ring;
  fill = record { producer = 0; consumer = 0; slots = [] };
  completion = record { producer = 0; consumer = 0; slots = [] };
}

abbrev packet : Packet
packet = record {
  umem = 65536;
  umem_hdrs_cursor = 0;
  prefilled_umem_packet = 65536;
  prefilled_umem_packet_len = 46;
  headers = replicate 46 0;
  mtu = 1500;
  remain_plen = 0;
  xdp_segs = replicate 16 (0, 0);
  xdp_seg_count = 0;
}

abbrev draws : Draws
draws = record { init_tag = 5; init_tsn = 6; cookie_tag = 7; array = true; room = 4 }

abbrev config : Ulp
config = record {
  src_ip = 16777343;
  dst_ip = 0;
  src_port = 5000;
  dst_port = 0;
  src_arwnd = 65536;
  src_os = 2;
  src_mis = 2;
}

abbrev heap : ℕ → Callback
heap p = record { retries = 0; signal = 0; prev = 0; next = 0 }

abbrev timer : Wheel
timer = record { timers = replicate 300 0; current = 0; max = 300; allocator = made.0; heap = heap }

new_timer : create_ringtimer true true 300 made.0 heap ≡ some timer
unfolding create_ringtimer
new_timer = refl

abbrev clock : ℕ → ℕ
clock i = min (100 + i * 500) 700000

clock-IsClock : IsClock clock
clock-IsClock = record {
  forward = λ i. omega arith;
  often = λ i. omega arith;
  word = λ i. omega arith;
}

client_loop-Stops_example :
    (s : Client) × (client_start 1 (λ x. x) draws config 69632 0 timer packet socket ≡ some s)
    × Stops (λ x. x) clock 1402 0 s
client_loop-Stops_example =
    client_loop-Stops (λ x. x) draws config 69632 0 64 raw (block_list 256 4095) heap packet socket
      (length-replicate 256 no_cell) (length-block_list 256 4095) (block_list-AllThere 256 4095)
      made.1 new_timer (length-replicate {A = ℕ × ℕ} 16 (0, 0)) tx_ring-IsXdpRing (omega arith) 1400
      clock-IsClock (omega arith) (omega arith) (omega arith)
