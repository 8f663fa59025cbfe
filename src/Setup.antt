-- ===== src/Setup.antt =====
-- src/kpnet_env_init.c, src/sctp_assoc_create.c, src/create_server.c, src/eth_receive_sctp.c: the
-- environment of a device, a new association in it, the server, and one packet for it. What the
-- kernel and `malloc` give are arguments; memory that is given back to `free` is left out.
pub mod Blocks
mod Tests
use mathlib.Core.Option
use libkpnet.Base.{
  ◌*◌, ℕ, ◌+◌, ◌-◌, ◌^◌, Bool, true, false, ◌||◌, ◌&&◌, Option, none, some, List, [], ◌∷◌,
  replicate, bswap16, ltb, ◌==◌, if◌then◌else◌,
}
use libkpnet.Wire.{mac_bytes, ip_bytes, cmn_bytes}
use libkpnet.Ring.{Cell, Ringbuf, cell_at, create_ringbuf, pop_ringbuf}
use libkpnet.Ring.Allocator.{create_allocator}
use libkpnet.Umem.{UmemStack, create_umem_stack}
use libkpnet.Umem.Slab.{Slab, slab_alloc_64b}
use libkpnet.Sctp.{Status, listen, Ulp, Assoc}
use libkpnet.Sctp.Packet.{Packet}
use libkpnet.Raw.Prefill.{prefill_sctp_mac_ip}

-- `kpnet_env_t`: the address of the UMEM of `xdp`, and `state_alloc` with the stack.
pub record Env : Type 0 where
  pub umem : ℕ
  pub state_alloc : Slab

abbrev pub umem_chunk_count : ℕ
umem_chunk_count = 4096

abbrev pub umem_chunk_size : ℕ
umem_chunk_size = 4096

-- Behind the test of the stack: `xdp` is the UMEM that `xdp_open` maps, or `none` for NULL, and
-- `eth` says whether `eth_open` succeeds. `mem` is what the UMEM holds.
abbrev pub env_of : (xdp : Option ℕ) (eth : Bool) (mem : ℕ → ℕ) → Option UmemStack → Option Env
env_of xdp eth mem none = none
env_of none eth mem (some stack) = none
env_of (some umem) false mem (some stack) = none
env_of (some umem) true mem (some stack) = some (record {
  umem = umem;
  state_alloc = record { free_list = 0; stack = stack; cur_pos = 0; cur_end = 0; mem = mem };
})

unfoldable pub kpnet_env_init :
    (handle stack_handle : Bool) (stack_raw : Option (List ℕ)) (xdp : Option ℕ) (eth : Bool)
    (mem : ℕ → ℕ)
    → Option Env
kpnet_env_init false stack_handle stack_raw xdp eth mem = none
kpnet_env_init true stack_handle stack_raw xdp eth mem =
    env_of xdp eth mem (create_umem_stack stack_handle stack_raw umem_chunk_count umem_chunk_size)

-- What one call of `sctp_assoc_create` is given from outside. `gateway` and `dev` are `none` where
-- the name is NULL, `some none` where `get_ifmac` fails, and else the eight bytes at the address as
-- a number; `line` is the size of a cache line.
pub record Given : Type 0 where
  pub handle : Bool
  pub line : ℕ
  pub gateway : Option (Option ℕ)
  pub dev : Option (Option ℕ)
  pub allocator_handle : Bool
  pub allocator_raw : Option (List Cell)
  pub memories : List ℕ
  pub ring_handle : Bool
  pub ring_raw : Option (List Cell)
  pub id : ℕ
  pub indent : ℕ

-- The new association with the blocks of its parts. `ulp` and `meta` carry the same addresses, and
-- `meta` also the state. The inner `none` of `allocator_64` is a call that does not return.
pub record Created : Type 0 where
  pub assoc : Assoc
  pub packet : Packet
  pub ulp_at : ℕ
  pub meta_at : ℕ
  pub frame_at : ℕ
  pub prefilled_at : ℕ
  pub allocator_64 : Option (Option Ringbuf)
  pub bundling : Option Ringbuf

abbrev pub new_ulp : (src_ip src_port dst_ip dst_port : ℕ) → Ulp
new_ulp src_ip src_port dst_ip dst_port = record {
  src_ip = src_ip;
  dst_ip = dst_ip;
  src_port = src_port;
  dst_port = dst_port;
  src_arwnd = 65535;
  src_os = 32;
  src_mis = 32;
}

-- All that is not set is 0 from the `memset`.
abbrev pub new_assoc : (id : ℕ) → Status → Ulp → Assoc
new_assoc id status ulp = record {
  id = id;
  status = status;
  ver_tag = 0;
  init_tag = 0;
  a_rwnd = 0;
  dst_port = 0;
  dst_ip = 0;
  os = bswap16 16;
  mis = bswap16 16;
  tsn = 0;
  dst_tsn = 0;
  srtt = 0;
  rttvar = 0;
  rto = 0;
  cookie = [];
  base = true;
  state = true;
  threads = none;
  os_threads = 0;
  ulp = ulp;
}

abbrev pub new_packet : (umem prefilled : ℕ) → Packet
new_packet umem prefilled = record {
  umem = umem;
  umem_hdrs_cursor = 0;
  prefilled_umem_packet = prefilled;
  prefilled_umem_packet_len = 0;
  headers = [];
  mtu = 1500 - mac_bytes - ip_bytes - cmn_bytes;
  remain_plen = 0;
  xdp_segs = replicate 16 (0, 0);
  xdp_seg_count = 0;
}

-- The headers are written only where both names are given.
abbrev pub prefilled_packet :
    (gateway dev : Option (Option ℕ)) → (indent : ℕ) → Ulp → Packet → Packet
prefilled_packet (some (some gateway)) (some (some dev)) indent ulp p =
    prefill_sctp_mac_ip indent ulp gateway dev p
prefilled_packet _ _ indent ulp p = p

abbrev pub mac_missing : Option (Option ℕ) → Bool
mac_missing (some none) = true
mac_missing _ = false

-- Both names are given, so that the headers are written.
abbrev pub writes_headers : (gateway dev : Option (Option ℕ)) → Bool
writes_headers (some (some gateway)) (some (some dev)) = true
writes_headers _ _ = false

-- From the addresses of the devices on. The block for the packet is not tested for NULL, through
-- which the headers are then written: that is the outer `none`.
abbrev pub completed :
    Given
    → Status
    → Ulp
    → (umem ulp_at meta_at frame_at : ℕ) → ℕ × Slab
    → Option (Option Created × Slab)
completed g status ulp umem ulp_at meta_at frame_at (prefilled, s) =
    if (prefilled == 0) && writes_headers g.gateway g.dev
    then none
    else some (
      some (record {
        assoc = new_assoc g.id status ulp;
        packet = prefilled_packet g.gateway g.dev g.indent ulp (new_packet umem prefilled);
        ulp_at = ulp_at;
        meta_at = meta_at;
        frame_at = frame_at;
        prefilled_at = prefilled;
        allocator_64 = create_allocator g.line g.allocator_handle g.allocator_raw g.memories 64 256;
        bundling = create_ringbuf g.ring_handle g.ring_raw 256;
      }),
      s,
    )

-- The result has the allocator behind the call; where it is NULL, the blocks that were taken are
-- not given back. `none` is the write through NULL.
unfoldable pub sctp_assoc_create :
    Given → (src_ip src_port dst_ip dst_port : ℕ) → Status → Env → Option (Option Created × Slab)
sctp_assoc_create g src_ip src_port dst_ip dst_port status env =
    let ulp = slab_alloc_64b env.umem env.state_alloc in
    let meta = slab_alloc_64b env.umem ulp.1 in
    let frame = slab_alloc_64b env.umem meta.1 in
    let last = slab_alloc_64b env.umem frame.1 in
    if g.handle
    then (if (ulp.0 == 0) || (meta.0 == 0) || (frame.0 == 0)
        then some (none, frame.1)
        else (if mac_missing g.gateway || mac_missing g.dev
            then some (none, frame.1)
            else completed g status (new_ulp src_ip src_port dst_ip dst_port) env.umem ulp.0 meta.0
                frame.0 last))
    else some (none, env.state_alloc)

-- `inet_addr ("192.168.1.3")`
abbrev pub server_ip : ℕ
server_ip = 192 + 256 * 168 + 65536 * 1 + 16777216 * 3

-- What `create_server` has when it comes to its clean-up, which then closes and frees variables
-- that were never set.
abbrev pub serve : Given → Option Env → Option (Option Created)
serve g none = some none
serve g (some env) =
    Option.map (λ x. x.0) (sctp_assoc_create g server_ip 80 (2 ^ 32 - 1) 65535 listen env)

unfoldable pub create_server : Given → Option Env → Option (Option Created)
create_server g env = serve g env

-- `current_packet` and `cursor`, and the ring `allocator_2048`.
pub record Received : Type 0 where
  pub allocator_2048 : Ringbuf
  pub current_packet : ℕ
  pub cursor : ℕ

-- The result is true for 0 and false for -1; a buffer whose packet is too short is not given back.
abbrev pub received :
    Received → (size : Option ℕ) → Option (Option ℕ × Ringbuf) → Option (Bool × Received)
received r size none = none
received r size (some (none, rb)) = some (false, record r { allocator_2048 = rb })
received r none (some (some i, rb)) = some (false, record r { allocator_2048 = rb })
received r (some n) (some (some i, rb)) =
    let buffer = (cell_at rb i).packet in
    if ltb n (mac_bytes + ip_bytes + cmn_bytes)
    then some (false, record r { allocator_2048 = rb })
    else some (
      true,
      record {
        allocator_2048 = rb;
        current_packet = buffer;
        cursor = buffer + mac_bytes + ip_bytes + cmn_bytes;
      },
    )

-- `size` is what `recv` returns, `none` for a negative number.
unfoldable pub eth_receive_sctp : Received → (size : Option ℕ) → Option (Bool × Received)
eth_receive_sctp r size = received r size (pop_ringbuf 0 r.allocator_2048)
