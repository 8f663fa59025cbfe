-- ===== src/Xdp/Tests.antt =====
-- Rings of 4096 slots whose counters are about to wrap round.
use libkpnet.Base.{ℕ, ◌≡◌, ◌≤◌, refl, arith, List, [], ◌∷◌, replicate, length-replicate, ◌⊎◌}
use libkpnet.Umem.{UmemStack}
use libkpnet.Xdp.{Desc, XdpRing, Xdp, no_desc, xdp_rx, xdp_tx, xdp_tx_sg, xdp_fill}
use libkpnet.Xdp.Window.{IsXdpRing}
use libkpnet.Xdp.Consume.{Consumed, xdp_rx-Consumed}
use libkpnet.Xdp.Produce.{Sent, Refused, xdp_tx_all_or_nothing}
use libkpnet.Xdp.Gather.{Gathered, xdp_tx_sg-Gathered}
use libkpnet.Xdp.Fill.{Refilled, xdp_fill-Refilled}

module _ {A : Type 0} (d : A) where
  abbrev wrapped : XdpRing A
  wrapped = record { producer = 1; consumer = 4294967294; slots = replicate 4096 d }

  wrapped-IsXdpRing : IsXdpRing wrapped
  wrapped-IsXdpRing = record {
    storage = length-replicate 4096 d;
    prod_word = omega arith;
    cons_word = omega arith;
    ahead = omega arith;
  }

abbrev socket : Xdp
socket = record {
  rx = wrapped no_desc;
  tx = wrapped no_desc;
  fill = wrapped 0;
  completion = wrapped 0;
}

xdp_rx-Consumed_example :
    let (n, out, x') = xdp_rx socket 2 in
    Consumed no_desc socket.rx 2 (n, out, x'.rx)
    × (x'.tx ≡ socket.tx)
    × (x'.fill ≡ socket.fill)
    × (x'.completion ≡ socket.completion)
xdp_rx-Consumed_example = xdp_rx-Consumed socket 2 (wrapped-IsXdpRing no_desc)

abbrev two_segs : List (ℕ × ℕ)
two_segs = (4096, 46) ∷ (8192, 1000) ∷ []

xdp_tx_all_or_nothing_example :
    ((1 ≤ 2) × (2 ≤ 16) × Sent socket two_segs 2 (xdp_tx socket two_segs 2))
    ⊎ Refused socket 2 (xdp_tx socket two_segs 2)
xdp_tx_all_or_nothing_example =
    xdp_tx_all_or_nothing socket two_segs 2 (wrapped-IsXdpRing no_desc) (omega arith)

abbrev two_reqs : List Desc
two_reqs =
    record { addr = 4096; len = 46; options = 1 }
    ∷ record { addr = 8192; len = 9; options = 0 }
    ∷ []

xdp_tx_sg-Gathered_example : Gathered socket two_reqs 2 (xdp_tx_sg socket two_reqs 2)
xdp_tx_sg-Gathered_example =
    xdp_tx_sg-Gathered socket two_reqs 2 (wrapped-IsXdpRing no_desc) (omega arith)

abbrev two_chunks : UmemStack
two_chunks = record { addrs = 0 ∷ 4096 ∷ []; top = 2; cap = 2 }

xdp_fill-Refilled_example : Refilled socket two_chunks 3 (xdp_fill socket two_chunks 3)
xdp_fill-Refilled_example =
    xdp_fill-Refilled socket two_chunks 3 (wrapped-IsXdpRing 0)
      (record { within = omega arith; storage = refl }) refl
