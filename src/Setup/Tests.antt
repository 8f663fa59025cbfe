-- ===== src/Setup/Tests.antt =====
-- A server on a UMEM of one chunk.
use libkpnet.Base.{ℕ, ◌≡◌, refl, arith, Bool, true, false, Option, none, some, List, [], ◌∷◌}
use libkpnet.Ring.{pop_ringbuf, pop_loop, pop_at}
use libkpnet.Umem.{UmemStack, umem_stack_pop}
use libkpnet.Umem.Slab.{slab_alloc_64b}
use libkpnet.Umem.Slab.Inv.{IsChunks}
use libkpnet.Umem.Slab.Safety.{empty_slab, empty-Invariant}
use libkpnet.Sctp.{listen}
use libkpnet.Raw.Prefill.{prefill_sctp_mac_ip}
use libkpnet.Setup.{
  Env, Given, Created, create_server, sctp_assoc_create, server_ip, Received, eth_receive_sctp,
}
use libkpnet.Setup.Blocks.{Outcome, sctp_assoc_create-Outcome}

abbrev one_chunk : UmemStack
one_chunk = record { addrs = 0 ∷ []; top = 1; cap = 1 }

one_chunk-IsChunks : IsChunks one_chunk
one_chunk-IsChunks = record {
  valid = record { within = omega arith; storage = refl };
  once = λ a. ground arith;
  aligned = λ a h. ground arith;
}

abbrev env : Env
env = record { umem = 65536; state_alloc = empty_slab one_chunk (λ p. 0) }

-- Without memory for the two rings, which nobody tests.
abbrev given : Given
given = record {
  handle = true;
  line = 64;
  gateway = some (some 1);
  dev = some (some 2);
  allocator_handle = false;
  allocator_raw = none;
  memories = [];
  ring_handle = true;
  ring_raw = none;
  id = 7;
  indent = 9;
}

sctp_assoc_create-Outcome_example :
    Outcome given env [] (sctp_assoc_create given server_ip 80 1 2 listen env)
sctp_assoc_create-Outcome_example =
    sctp_assoc_create-Outcome given server_ip 80 1 2 listen env [] []
      (empty-Invariant 65536 one_chunk (λ p. 0) one_chunk-IsChunks (omega arith) refl)

abbrev blocks_of : Option (Option Created) → List ℕ
blocks_of none = []
blocks_of (some none) = []
blocks_of (some (some c)) =
    c.ulp_at ∷ c.meta_at ∷ c.frame_at ∷ c.prefilled_at ∷ c.packet.prefilled_umem_packet ∷ []

server_blocks :
    blocks_of (create_server given (some env)) ≡ 65536 ∷ 65600 ∷ 65664 ∷ 65728 ∷ 65730 ∷ []
unfolding sctp_assoc_create slab_alloc_64b umem_stack_pop create_server prefill_sctp_mac_ip
server_blocks = refl

no_address : blocks_of (create_server (record given { dev = some none }) (some env)) ≡ []
unfolding sctp_assoc_create create_server slab_alloc_64b umem_stack_pop
no_address = refl

abbrev one_buffer : Received
one_buffer = record {
  allocator_2048 = record {
    size = 2;
    mask = 1;
    head = 1;
    tail = 0;
    cells =
        record { seq = 1; plen = 2048; packet = 4096 }
        ∷ record { seq = 1; plen = 0; packet = 0 }
        ∷ [];
  };
  current_packet = 0;
  cursor = 0;
}

abbrev cursor_of : Option (Bool × Received) → ℕ
cursor_of none = 0
cursor_of (some (b, r)) = r.cursor

enough : cursor_of (eth_receive_sctp one_buffer (some 60)) ≡ 4142
unfolding eth_receive_sctp pop_ringbuf pop_loop pop_at
enough = refl

too_short : cursor_of (eth_receive_sctp one_buffer (some 45)) ≡ 0
unfolding eth_receive_sctp pop_ringbuf pop_loop pop_at
too_short = refl
