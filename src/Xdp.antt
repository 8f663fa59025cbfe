-- ===== src/Xdp.antt =====
-- include/xdp.h, src/xdp_rx.c, src/xdp_complete_tx.c, src/xdp_tx.c, src/xdp_tx_sg.c,
-- src/xdp_fill.c: the four rings that an AF_XDP socket shares with the kernel. `producer` and
-- `consumer` are free-running 32-bit counters, and a slot is a counter masked by RING_MASK.
-- The `sendto` that wakes the kernel changes nothing of this state, and its failure is only
-- printed, so it is left out.
pub mod Window
pub mod Consume
pub mod Produce
pub mod Gather
pub mod Fill
mod Tests
use libkpnet.Base.{
  ℕ, zero, suc, ◌+◌, ◌-◌, bit_and, Bool, true, false, ◌||◌, List, [], ◌∷◌, get_or, set, take, u32,
  sub_u32, ltb, ◌==◌, if◌then◌else◌, ◌^◌,
}
use libkpnet.Umem.{UmemStack, no_addr, umem_stack_pop}

-- `xdp_desc_t`
pub record Desc : Type 0 where
  pub addr : ℕ
  pub len : ℕ
  pub options : ℕ

-- One ring: its two counters and its slots.
pub record XdpRing (A : Type 0) : Type 0 where
  pub producer : ℕ
  pub consumer : ℕ
  pub slots : List A

-- `xdp_t`, less the socket and the mappings.
pub record Xdp : Type 0 where
  pub rx : XdpRing Desc
  pub tx : XdpRing Desc
  pub fill : XdpRing ℕ
  pub completion : XdpRing ℕ

abbrev pub ring_size : ℕ
ring_size = 4096

abbrev pub ring_mask : ℕ
ring_mask = 4095

abbrev pub xdp_max_segs : ℕ
xdp_max_segs = 16

-- XDP_PKT_CONTD of linux/if_xdp.h
abbrev pub pkt_contd : ℕ
pkt_contd = 1

abbrev pub no_desc : Desc
no_desc = record { addr = 0; len = 0; options = 0 }

-- `(prod + i) & RING_MASK`, with the sum in `u32`
abbrev pub slot : ℕ → ℕ → ℕ
slot p i = bit_and (u32 (p + i)) ring_mask

module _ {A : Type 0} where
  -- The copying loop of `xdp_rx` and `xdp_complete_tx`.
  pub read_slots : A → List A → (cons i left : ℕ) → List A
  read_slots d slots cons i zero = []
  read_slots d slots cons i (suc left) =
      get_or slots (slot cons i) d ∷ read_slots d slots cons (suc i) left

  -- The common body of `xdp_rx` and `xdp_complete_tx`: the count, what is copied out, the ring.
  pub consume : A → XdpRing A → ℕ → ℕ × List A × XdpRing A
  consume d r max_n =
      let avail = sub_u32 r.producer r.consumer in
      let n = if ltb max_n avail then max_n else avail in
      if avail == 0
      then (0, [], r)
      else (n, read_slots d r.slots r.consumer 0 n, record r { consumer = u32 (r.consumer + n) })

  -- The writing loop of `xdp_tx` and `xdp_tx_sg`.
  pub write_slots : List A → (prod i : ℕ) → List A → List A
  write_slots slots prod i [] = slots
  write_slots slots prod i (x ∷ xs) = write_slots (set slots (slot prod i) x) prod (suc i) xs

  -- The free slots, `UMEM_CHUNK_COUNT - (prod - cons)`.
  abbrev pub free_slots : XdpRing A → ℕ
  free_slots r = sub_u32 ring_size (sub_u32 r.producer r.consumer)

pub xdp_rx : Xdp → ℕ → ℕ × List Desc × Xdp
xdp_rx x max_n = let (n, out, r) = consume no_desc x.rx max_n in (n, out, record x { rx = r })

pub xdp_complete_tx : Xdp → ℕ → ℕ × List ℕ × Xdp
xdp_complete_tx x max_n =
    let (n, out, r) = consume 0 x.completion max_n in (n, out, record x { completion = r })

-- The descriptors of one packet: all but the last segment say that it goes on.
pub tx_descs : (n i : ℕ) → List (ℕ × ℕ) → List Desc
tx_descs n i [] = []
tx_descs n i ((addr, len) ∷ segs) =
    record { addr = addr; len = len; options = if ltb i (n - 1) then pkt_contd else 0 }
    ∷ tx_descs n (suc i) segs

unfoldable pub xdp_tx : Xdp → List (ℕ × ℕ) → ℕ → ℕ × Xdp
xdp_tx x segs n =
    if n == 0 || ltb xdp_max_segs n
    then (0, x)
    else (if ltb (free_slots x.tx) n then (0, x) else (
      n,
      record x {
        tx = record (x.tx) {
          slots = write_slots x.tx.slots x.tx.producer 0 (tx_descs n 0 (take n segs));
          producer = u32 (x.tx.producer + n);
        };
      },
    ))

-- `xdp_sg_req_t` is a descriptor with its flags.
pub xdp_tx_sg : Xdp → List Desc → ℕ → ℕ × Xdp
xdp_tx_sg x reqs n =
    let m = if ltb (free_slots x.tx) n then free_slots x.tx else n in
    if m == 0 then (0, x) else (
      m,
      record x {
        tx = record (x.tx) {
          slots = write_slots x.tx.slots x.tx.producer 0 (take m reqs);
          producer = u32 (x.tx.producer + m);
        };
      },
    )

-- The loop of `xdp_fill`: the count reached, the stack, the slots.
pub fill_loop : (left i prod : ℕ) → UmemStack → List ℕ → ℕ × UmemStack × List ℕ
fill_loop zero i prod s slots = (i, s, slots)
fill_loop (suc left) i prod s slots =
    let (addr, s') = umem_stack_pop s in
    let rest = fill_loop left (suc i) prod s' (set slots (slot prod i) addr) in
    if addr == no_addr then (i, s', slots) else rest

pub xdp_fill : Xdp → UmemStack → ℕ → ℕ × UmemStack × Xdp
xdp_fill x s max_n =
    let free = free_slots x.fill in
    let want = if ltb free max_n then free else max_n in
    let (n, s', slots) = fill_loop want 0 x.fill.producer s x.fill.slots in
    if want == 0 then (0, s, x) else (
      n,
      s',
      record x {
        fill = record (x.fill) {
          slots = slots;
          producer = if n == 0 then x.fill.producer else u32 (x.fill.producer + n);
        };
      },
    )
