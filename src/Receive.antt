-- ===== src/Receive.antt =====
-- src/recv_packet.c: the thread that receives packets into buffers of an allocator ring, checks
-- them and hands them on in another ring.
pub mod Handed
mod Tests
use libkpnet.Base.{
  ℕ, zero, suc, Bool, true, false, Option, none, some, List, [], ◌∷◌, length, ◌==◌, if◌then◌else◌,
}
use libkpnet.Wire.{overwrite}
use libkpnet.Crc.{Host}
use libkpnet.Checks.Verify.{sctp_check_checksums}
use libkpnet.Ring.{Ringbuf, cell_at, push_ringbuf, pop_ringbuf}

-- What one `recv` comes to: EAGAIN or EWOULDBLOCK, another error, 0, or the bytes of a packet, at
-- most the 2048 asked for.
pub data Recv : Type 0 where
  again : Recv
  failed : Recv
  closed : Recv
  got : (bytes : List ℕ) → Recv

-- The two rings of `rb_arg_t`, the buffers by their addresses, and the local `buffer`.
pub record Rx : Type 0 where
  pub allocator : Ringbuf
  pub rb : Ringbuf
  pub mem : ℕ → List ℕ
  pub buffer : ℕ

-- After one round: the loop goes on, or the process exits, with success or without.
pub data Turn : Type 0 where
  goes_on : Rx → Turn
  exits : (success : Bool) → Rx → Turn

abbrev pub set_mem : (ℕ → List ℕ) → ℕ → List ℕ → ℕ → List ℕ
set_mem mem p bytes q = if p == q then bytes else mem q

abbrev pub popped :
    (Rx → Option Rx) → (others : Rx → Rx) → Rx → Option (Option ℕ × Ringbuf) → Option Rx
popped retry others s none = none
popped retry others s (some (none, ring)) = retry (others (record s { allocator = ring }))
popped retry others s (some (some i, ring)) =
    some (record s { allocator = ring; buffer = (cell_at ring i).packet })

-- The loop that pops a buffer: `others` is what the other threads do between two rounds, and
-- `none` says that the fuel ran out.
pub take_buffer : (fuel : ℕ) → (others : Rx → Rx) → Rx → Option Rx
take_buffer zero others s = none
take_buffer (suc fuel) others s =
    popped (take_buffer fuel others) others s (pop_ringbuf 0 s.allocator)

abbrev pub pushed : (Rx → Option Rx) → (others : Rx → Rx) → Rx → Option (Bool × Ringbuf) → Option Rx
pushed retry others s none = none
pushed retry others s (some (false, ring)) = retry (others (record s { rb = ring }))
pushed retry others s (some (true, ring)) = some (record s { rb = ring })

-- The loop that pushes the buffer with the size of the packet.
pub hand_over : (fuel : ℕ) → (others : Rx → Rx) → (size : ℕ) → Rx → Option Rx
hand_over zero others size s = none
hand_over (suc fuel) others size s =
    pushed (hand_over fuel others size) others s (push_ringbuf 0 s.rb s.buffer size)

abbrev pub next_buffer : (fuel : ℕ) → (others : Rx → Rx) → Option Rx → Option Rx
next_buffer fuel others none = none
next_buffer fuel others (some s) = take_buffer fuel others s

abbrev pub going_on : Option Rx → Option Turn
going_on none = none
going_on (some s) = some (goes_on s)

abbrev pub given_back : Bool → Rx → Option (Bool × Ringbuf) → Option Turn
given_back success s none = none
given_back success s (some (_, ring)) = some (exits success (record s { allocator = ring }))

-- The packet in the buffer, as the check leaves it.
abbrev pub checked : Host → Rx → List ℕ → Bool × List ℕ
checked h s bytes = sctp_check_checksums h (overwrite bytes (s.mem s.buffer)) (length bytes)

abbrev pub filled : Host → Rx → List ℕ → Rx
filled h s bytes = record s { mem = set_mem s.mem s.buffer (checked h s bytes).1 }

-- One round of the loop.
unfoldable pub on_recv : Host → (fuel : ℕ) → (others : Rx → Rx) → Rx → Recv → Option Turn
on_recv h fuel others s again = some (goes_on (others s))
on_recv h fuel others s failed = given_back false s (push_ringbuf 0 s.allocator s.buffer 2048)
on_recv h fuel others s closed = given_back true s (push_ringbuf 0 s.allocator s.buffer 2048)
on_recv h fuel others s (got bytes) =
    let s' = filled h s bytes in
    if (checked h s bytes).0
    then going_on (next_buffer fuel others (hand_over fuel others (length bytes) s'))
    else some (goes_on s')

abbrev pub then_recv : (Rx → Option Turn) → Option Turn → Option Turn
then_recv rest none = none
then_recv rest (some (goes_on s)) = rest s
then_recv rest (some (exits success s)) = some (exits success s)

-- The loop, over what its calls of `recv` come to.
unfoldable pub recv_loop : Host → (fuel : ℕ) → (others : Rx → Rx) → List Recv → Rx → Option Turn
recv_loop h fuel others [] s = some (goes_on s)
recv_loop h fuel others (r ∷ rs) s =
    then_recv (recv_loop h fuel others rs) (on_recv h fuel others s r)

abbrev pub begun : (Rx → Option Turn) → Option Rx → Option Turn
begun rest none = none
begun rest (some s) = rest s

unfoldable pub recv_sctp_packet :
    Host → (fuel : ℕ) → (others : Rx → Rx) → List Recv → Rx → Option Turn
recv_sctp_packet h fuel others rs s = begun (recv_loop h fuel others rs) (take_buffer fuel others s)
