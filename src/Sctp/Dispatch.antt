-- ===== src/Sctp/Dispatch.antt =====
-- src/if_ip_sctp.c: the guards, and the dispatch by the type of the first chunk. `size` is not
-- read.
pub mod Transitions
use libkpnet.Base.{
  ℕ, ◌+◌, Bool, true, false, Option, none, some, List, drop, bswap16, ◌==◌, ◌&&◌, if◌then◌else◌,
}
use libkpnet.Wire.{mac_bytes, ip_bytes, cmn_bytes, fld_bytes, get8, get16, get32}
use libkpnet.Crc.{Host}
use libkpnet.Sctp.{
  Assoc, Net, Status, listen, init_sent, init_ack_received, type_init, type_init_ack,
  type_cookie_echo, type_cookie_ack,
}
use libkpnet.Sctp.Build.{Draws, cmn_at, chunk_at}
use libkpnet.Sctp.Process.{
  sctp_process_sctp_init, sctp_process_sctp_init_ack, sctp_process_sctp_cookie_echo,
  sctp_process_sctp_cookie_ack,
}

-- What `switch` goes by.
pub data Chunk : Type 0 where
  init init_ack cookie_echo cookie_ack other : Chunk

unfoldable pub chunk_of : ℕ → Chunk
chunk_of t =
    if t == type_init
    then init
    else (if t == type_init_ack
        then init_ack
        else (if t == type_cookie_echo
            then cookie_echo
            else (if t == type_cookie_ack then cookie_ack else other)))

-- The call of the handler, where the status is the one that the case asks for.
unfoldable pub handle :
    Host → Draws → Chunk → Status → Assoc → Net → List ℕ → Option (Bool × Assoc × Net)
handle h d init listen a net packet = sctp_process_sctp_init h d a net (drop mac_bytes packet)
handle h d init_ack init_sent a net packet =
    sctp_process_sctp_init_ack h a net (drop (chunk_at + fld_bytes) packet)
      (get16 packet (chunk_at + 2))
handle h d cookie_echo listen a net packet =
    sctp_process_sctp_cookie_echo h d a net (drop chunk_at packet) (get16 packet (chunk_at + 2))
handle h d cookie_ack init_ack_received a net packet =
    let (b, a') = sctp_process_sctp_cookie_ack d a (get16 packet (chunk_at + 2)) in
    some (b, a', net)
handle h d c s a net packet = some (false, a, net)

-- `some packet` is a pointer that is not NULL; the result is false for NULL.
unfoldable pub if_ip_sctp :
    Host → Draws → Option (List ℕ) → Assoc → Net → Option (Bool × Assoc × Net)
if_ip_sctp h d none a net = some (false, a, net)
if_ip_sctp h d (some packet) a net =
    if a.base
      && a.state
      && get32 packet (mac_bytes + 16) == a.ulp.src_ip
      && a.ulp.src_port == bswap16 (get16 packet (cmn_at + 2))
    then handle h d (chunk_of (get8 packet chunk_at)) a.status a net packet
    else some (false, a, net)
