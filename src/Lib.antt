-- ===== src/Lib.antt =====
-- libkpnet is user-space networking over AF_XDP: an SCTP endpoint that builds packets in the memory
-- shared with the kernel (UMEM), and the rings, allocators and checksums under it.
--
-- The program's parts and the files that model them, as functions on records of state:
--
--   Ring    include/ring_buffer.h, src/create_ringbuf.c, src/push_ringbuf.c, src/pop_ringbuf.c.
--           The bounded ring of cells with sequence numbers, for one thread at a time. The loops
--           around the compare-exchange run on fuel: one more than the number of times that the
--           weak compare-exchange fails, which is an argument. Ring.Queue is the abstract queue,
--           Ring.Refine the refinement. Ring.Threads
--           runs the two functions under any number of threads, one access to memory at a time and
--           in any order, for at most 2 ^ 62 calls and accesses, so that no position wraps; the
--           memory is sequentially consistent, which the acquire and release orders of the code
--           do not promise for every access.
--   Umem    src/create_umem_stack.c, src/umem_stack_pop.c, src/umem_stack_push.c: the stack of free
--           chunks. Umem.Slab: src/slab_alloc_64b.c, src/slab_free_64b.c, blocks of 64 bytes with
--           the free list in the blocks themselves, the memory being a function of addresses.
--   Xdp     src/xdp_rx.c, src/xdp_complete_tx.c, src/xdp_tx.c, src/xdp_tx_sg.c, src/xdp_fill.c: the
--           program's side of the four rings that it shares with the kernel. The `sendto` that
--           wakes the kernel changes none of this state.
--   Wire    the packed headers of include/if_packet.h and include/sctp.h as bytes at offsets, on a
--           little-endian host.
--   Crc     src/generate_crc32c.c: both builds, and Crc.Instr their equality. The instructions of
--           the processor are a parameter (Crc.Host), and so is MD5, which the repository has as a
--           copy of RFC 1321's code.
--   Random  src/random.c, src/generate_random_buffer.c, src/get_random_from_buffer_u16.c, _u32.c,
--           _u64.c, src/get_random_u16.c, _u32.c, _u64.c: random numbers out of a
--           buffer. Fuel 2 is enough: one refill. What other threads do to the shared buffer
--           between two accesses of a call is an argument.
--   Checks  src/ip_checksum.c, src/tcp_checksum.c. The loop of the TCP checksum runs on fuel, of
--           which 3 is enough. Checks.Verify: src/sctp_check_checksums.c, src/fix_check_ip.c,
--           src/fix_check_ip_sctp.c.
--   Tcp     src/build_tcp_raw.c, src/tcp_fill_opt_mss.c, src/fix_check_ip_tcp.c, src/fix_check.c,
--           src/if_ip_tcp.c: TCP segments and their checks, where `malloc` does not fail. The TCP
--           checksum takes fuel, of which 3 is enough.
--   Sctp    include/sctp.h: the association. Sctp.Cookie: the state cookie and src/hmac_md5.c.
--           Sctp.Build: src/build_prefilled_mac_ip_sctp_init_ack_hdr.c, _cookie_echo_hdr.c and
--           _cookie_ack_hdr.c, which take a buffer from one ring and put it into two.
--           Sctp.Data: src/sctp_build_data_hdr.c, where `goto flush` runs on fuel.
--           Sctp.Data.Bundle: src/build_prefilled_mac_ip_sctp_data_hdr.c. Sctp.Threads:
--           src/prepare_sctp_threads.c. Sctp.Process: the four handlers
--           src/sctp_process_sctp_*.c. Sctp.Dispatch: src/if_ip_sctp.c. Sctp.Packet:
--           src/sctp_prepare_packet.c, src/sctp_push_to_xdp_segs.c, src/eth_send_sctp.c, whose loop
--           runs on fuel.
--   Timer   src/create_ringtimer.c, src/insert_ringtimer.c, src/tick_ringtimer.c: the timer wheel, an
--           array of circular lists in a heap of callbacks. Timer.Single and Timer.Insert: one timer
--           on the wheel, for which fuel 1 is enough in each tick; Timer.Shared: two in one slot.
--   Client  src/create_client.c, src/build_prefilled_mac_ip_sctp_init_hdr.c: the INIT and the loop
--           that sends it again, composed of Timer, Sctp.Packet and Xdp. Its memory is the ring that
--           src/create_allocator.c (Ring.Allocator) fills. `catches` is the fuel of the loop over
--           the seconds that have passed, of which 2 is enough where the clock is read every second.
--   Raw     src/build_sctp_*_raw.c, src/build_ip_raw.c, src/build_mac_raw.c, and the builders of
--           INIT, INIT ACK, COOKIE ECHO and COOKIE ACK over them, which put the headers in front of
--           the chunk. What `get_random` gives is an argument.
--           Raw.Prefill: src/prefill_mac_ip_sctp.c, src/prefill_mac_ip_sctp_.c,
--           src/prefill_sctp_mac_ip.c; Raw.Prefill.Init: src/build_prefilled_sctp_init_hdr.c.
--   Legacy  src/build_sctp_hdr_raw.c, src/if_sctp.c, src/if_ipv4.c, src/if_ipv4_sctp.c,
--           include/if_packet.h: the first handshake, on packets of an ordinary socket. Legacy.Conn
--           is connection_args_t, and Legacy.TagDraws what get_random_u32 gives.
--   Setup   src/kpnet_env_init.c, src/sctp_assoc_create.c, src/create_server.c,
--           src/eth_receive_sctp.c: the environment, an association with its blocks of Umem.Slab
--           and rings of Ring, the server, and one packet for it. What `malloc` and the kernel give
--           are arguments.
--   Receive src/recv_packet.c: the receiving thread between two rings, composed of Ring and
--           Checks.Verify. Its waiting loops run on fuel, with the other threads as a function; 1
--           is enough where a buffer is free and the ring has room. Receive.Handed is the abstract
--           walk over two queues.
--   Base    shared helpers: lists with native indices, words, masks, digits of `bit_xor`, counts.
--
-- A pointer into a packet is the list of bytes from there on; the buffers of the rings are a function
-- of their addresses. A result is true for 0 or a pointer, false for -1 or NULL, and `none` where the
-- code dereferences NULL, a builder of Sctp.Build writes behind its buffer, or the fuel is used up.
-- The locks of an association are left out, since each handler holds its lock only around its own
-- assignments.
--
-- Not modelled: the memory order of the accesses to a ring, which are taken one after another;
-- src/if_tcp.c and src/if_ipv4_tcp.c, which are commented out; the calls of `free`; opening sockets,
-- netlink and device queries, which are calls of the kernel; MD5 itself, a copy of the code of
-- RFC 1321.
pub mod Base
pub mod Ring
pub mod Umem
pub mod Xdp
pub mod Wire
pub mod Crc
pub mod Random
pub mod Checks
pub mod Timer
pub mod Client
pub mod Raw
pub mod Tcp
pub mod Setup
pub mod Receive
pub mod Legacy
pub mod Sctp
