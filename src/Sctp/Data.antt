-- ===== src/Sctp/Data.antt =====
-- src/sctp_build_data_hdr.c: DATA chunks are put one behind the other into the current packet, which
-- goes to the TX ring when there is no room left in it.
pub mod Bundle
pub mod Chunks
pub mod Drained
mod Tests
use libkpnet.Base.{
  ℕ, zero, suc, ◌+◌, ◌-◌, ◌*◌, ◌/◌, ◌%◌, ◌^◌, Bool, Option, none, some, List, [], ◌∷◌, ◌++◌, length,
  get_elem?, set, take, drop, replicate, min, bit_and, bit_or, u16, u32, sub_u32, sub_u64, bswap16,
  bswap32, ltb, leb, ◌==◌, if◌then◌else◌,
}
use libkpnet.Ring.{Ringbuf, cell_at, push_ringbuf, pop_ringbuf}
use libkpnet.Wire.{mac_bytes, ip_bytes, cmn_bytes, le16, le32, write_at}
use libkpnet.Sctp.{Net, type_data}

-- `sctp_thread_t`, the fields that take part
pub record Stream : Type 0 where
  pub buffer : List ℕ
  pub pos_low : ℕ
  pub pos_current : ℕ
  pub pos_high : ℕ
  pub ssn : ℕ
  pub proto : ℕ
  pub flags : ℕ

-- `sctp_chunk_slot_t`, with `buffer` as the position in the buffer of the stream
pub record Slot : Type 0 where
  pub in_use : ℕ
  pub acked : ℕ
  pub tsn : ℕ
  pub stream_id : ℕ
  pub retry_count : ℕ
  pub buffer : ℕ
  pub len : ℕ

-- The fields of the association that take part. `cursor` is a position in the current packet.
pub record Sender : Type 0 where
  pub net : Net
  pub tsn : ℕ
  pub ver_tag : ℕ
  pub mtu : ℕ
  pub remain_plen : ℕ
  pub current_packet : ℕ
  pub cursor : ℕ
  pub streams : List Stream
  pub rtx : List Slot

abbrev pub hdr_bytes : ℕ
hdr_bytes = 16

abbrev pub first_chunk : ℕ
first_chunk = mac_bytes + ip_bytes + cmn_bytes

-- The new packet; `none` is the dereference of NULL for an empty ring.
abbrev pub next_packet : Sender → Option (Option ℕ × Ringbuf) → Option Sender
next_packet s none = none
next_packet s (some (none, r)) = none
next_packet s (some (some i, r)) = some (record s {
  net = record s.net { prefilled = r };
  remain_plen = s.mtu;
  current_packet = (cell_at r i).packet;
  cursor = first_chunk;
})

abbrev pub queued : Sender → Option (Bool × Ringbuf) → Option Sender
queued s none = none
queued s (some (_, tx)) =
    next_packet (record s { net = record s.net { tx = tx } }) (pop_ringbuf 0 s.net.prefilled)

-- The part behind the label `flush`.
unfoldable pub flush : Sender → Option Sender
flush s =
    queued s (push_ringbuf 0 s.net.tx s.current_packet (sub_u32 s.mtu s.remain_plen + first_chunk))

abbrev pub room : Sender → ℕ
room s = sub_u64 s.remain_plen hdr_bytes

-- `pplen`, and `pplen` and `alligned_plen` behind the test of the latter
abbrev pub data_len : Sender → Stream → ℕ
data_len s t = u32 (min (room s) (sub_u32 t.pos_high t.pos_current))

abbrev pub aligned : ℕ → ℕ
aligned pplen = u32 (pplen + 3) / 4 * 4

abbrev pub fitted : (room pplen : ℕ) → ℕ × ℕ
fitted room pplen =
    if ltb room (aligned pplen) then (pplen / 4 * 4, pplen / 4 * 4) else (pplen, aligned pplen)

abbrev pub chunk_flags : (pplen : ℕ) → Stream → ℕ
chunk_flags pplen t =
    let left = sub_u32 t.pos_high t.pos_current in
    if leb (sub_u32 t.pos_high t.pos_low) pplen
    then bit_or t.flags 3
    else (if t.pos_low == t.pos_current
        then bit_or t.flags 2
        else (if u32 (t.pos_current + min pplen left) == t.pos_high
            then bit_or t.flags 1
            else t.flags))

-- `hdr`, the data and the zeros, which are next to one another.
abbrev pub data_chunk : (stream_id tsn pplen plen : ℕ) → Stream → List ℕ
data_chunk stream_id tsn pplen plen t =
    type_data ∷ chunk_flags pplen t % 256 ∷ le16 (bswap16 (u16 pplen))
    ++ le32 tsn
    ++ le16 (bswap16 stream_id)
    ++ le16 t.ssn
    ++ le32 t.proto
    ++ take pplen (drop t.pos_current t.buffer)
    ++ replicate (plen - pplen) 0

-- The rest of the function, with `pplen` and `alligned_plen` as they are in the end.
abbrev pub put_chunk : (stream_id : ℕ) → Stream → ℕ × ℕ → Sender → Sender
put_chunk stream_id t (pplen, plen) s =
    let tsn = u32 (s.tsn + bswap32 1) in
    let bytes = s.net.mem s.current_packet in
    let filled =
      write_at (mac_bytes + ip_bytes + 4) (le32 s.ver_tag)
        (write_at s.cursor (data_chunk stream_id s.tsn pplen plen t) bytes) in
    let slot : Slot = record {
      in_use = 1;
      acked = 0;
      tsn = bswap32 tsn;
      stream_id = stream_id;
      retry_count = 0;
      buffer = t.pos_current;
      len = pplen;
    } in
    record s {
      net = record s.net { mem = λ q. if q == s.current_packet then filled else s.net.mem q };
      tsn = tsn;
      cursor = s.cursor + plen;
      remain_plen = sub_u32 s.remain_plen plen;
      streams =
          set s.streams stream_id
            (record t { pos_current = u32 (t.pos_current + sub_u64 pplen hdr_bytes) });
      rtx = set s.rtx (bit_and (bswap32 tsn) 1023) slot;
    }

abbrev pub proceed : (Sender → Option Sender) → Option Sender → Option Sender
proceed next none = none
proceed next (some s) = next s

-- A stream that the array does not have is a read out of its bounds.
abbrev pub with_stream :
    (stream_id : ℕ) → (Sender → Option Sender) → Sender → Option Stream → Option Sender
with_stream stream_id again s none = none
with_stream stream_id again s (some t) =
    if data_len s t == 0
    then proceed again (flush s)
    else some (put_chunk stream_id t (fitted (room s) (data_len s t)) s)

-- From behind the first test on: `goto flush` comes back here, on fuel.
pub data_loop : (fuel stream_id : ℕ) → Sender → Option Sender
data_loop zero stream_id s = none
data_loop (suc fuel) stream_id s =
    with_stream stream_id (data_loop fuel stream_id) s (get_elem? s.streams stream_id)

unfoldable pub sctp_build_data_hdr : (fuel stream_id : ℕ) → Sender → Option Sender
sctp_build_data_hdr fuel stream_id s =
    if s.current_packet == 0
    then some s
    else (if ltb s.remain_plen (hdr_bytes + 4)
        then proceed (data_loop fuel stream_id) (flush s)
        else data_loop fuel stream_id s)
