-- ===== src/Sctp.antt =====
-- include/sctp.h: the state of an association, and the environment that its functions act on.
pub mod Cookie
pub mod Packet
pub mod Data
pub mod Build
pub mod Threads
pub mod Process
pub mod Dispatch
mod Tests
use libkpnet.Base.{ℕ, Bool, Option, List}
use libkpnet.Ring.{Ringbuf}

-- `SCTP_STATUS_T`
pub data Status : Type 0 where
  listen cookie_wait init_sent init_received init_ack_sent : Status
  init_ack_received cookie_received cookie_echo_sent cookie_echo_received established : Status

-- `SCTP_HDR_TYPE_T`, the types that the code handles or sends
abbrev pub type_data : ℕ
type_data = 0

abbrev pub type_init : ℕ
type_init = 1

abbrev pub type_init_ack : ℕ
type_init_ack = 2

abbrev pub type_cookie_echo : ℕ
type_cookie_echo = 10

abbrev pub type_cookie_ack : ℕ
type_cookie_ack = 11

-- `sctp_ulp_config_t`, the fields that are set
pub record Ulp : Type 0 where
  pub src_ip : ℕ
  pub dst_ip : ℕ
  pub src_port : ℕ
  pub dst_port : ℕ
  pub src_arwnd : ℕ
  pub src_os : ℕ
  pub src_mis : ℕ

-- `sctp_thread_t`, the fields that the code here reads or sets
pub record Thread : Type 0 where
  pub id : ℕ
  pub ssn : ℕ
  pub pos_low : ℕ
  pub pos_current : ℕ
  pub pos_high : ℕ

-- `sctp_association_t`. Numbers that came over the wire are in the byte order of the wire.
-- `cookie` is what `retry_ring` points at between INIT ACK and COOKIE ECHO; `base` and `state`
-- say that `base` and `base->state` are not NULL; `threads` is the array behind `mis_threads`,
-- and `os_threads` the index at which the outgoing ones begin.
pub record Assoc : Type 0 where
  pub id : ℕ
  pub status : Status
  pub ver_tag : ℕ
  pub init_tag : ℕ
  pub a_rwnd : ℕ
  pub dst_port : ℕ
  pub dst_ip : ℕ
  pub os : ℕ
  pub mis : ℕ
  pub tsn : ℕ
  pub dst_tsn : ℕ
  pub srtt : ℕ
  pub rttvar : ℕ
  pub rto : ℕ
  pub cookie : List ℕ
  pub base : Bool
  pub state : Bool
  pub threads : Option (List Thread)
  pub os_threads : ℕ
  pub ulp : Ulp

-- The two rings of an association, and the packet buffers by their pointers.
pub record Net : Type 0 where
  pub prefilled : Ringbuf
  pub tx : Ringbuf
  pub mem : ℕ → List ℕ
