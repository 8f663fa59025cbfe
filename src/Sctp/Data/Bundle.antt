-- ===== src/Sctp/Data/Bundle.antt =====
-- src/build_prefilled_mac_ip_sctp_data_hdr.c: a DATA chunk in a buffer of its own, or behind the
-- chunk of a packet that waits in `assoc->bundling`.
pub mod Sends
mod Tests
use libkpnet.Base.{
  ℕ, ◌+◌, ◌-◌, ◌*◌, ◌/◌, ◌%◌, Bool, true, false, ◌&&◌, not, Option, none, some, List, [], ◌∷◌, ◌++◌,
  length, get_elem?, set, take, drop, replicate, min, u16, u32, sub_u32, bswap16, bswap32, ltb,
  ◌==◌, if◌then◌else◌,
}
use mathlib.Core.Option
use libkpnet.Ring.{Ringbuf, cell_at, push_ringbuf, pop_ringbuf}
use libkpnet.Wire.{mac_bytes, le16, le32, get16, write_at}
use libkpnet.Checks.{tcp_checksum}
use libkpnet.Crc.{Host}
use libkpnet.Sctp.{Net, type_data}
use libkpnet.Sctp.Build.{patch_sctp}
use libkpnet.Sctp.Data.{Stream, hdr_bytes, first_chunk, chunk_flags}

-- The fields of the association that take part; a pointer of `os_threads` may be NULL.
pub record Bundler : Type 0 where
  pub net : Net
  pub bundling : Ringbuf
  pub tsn : ℕ
  pub ver_tag : ℕ
  pub os_threads : List (Option Stream)

-- `pplen`
abbrev pub max_data : ℕ
max_data = 1438

-- `MIN (pplen, thread->pos_high - thread->pos_current)`
abbrev pub fragment : Stream → ℕ
fragment t = min max_data (sub_u32 t.pos_high t.pos_current)

abbrev pub fragment_hdr : (stream_id tsn : ℕ) → Stream → List ℕ
fragment_hdr stream_id tsn t =
    type_data ∷ chunk_flags max_data t % 256 ∷ le16 (bswap16 (u16 (hdr_bytes + fragment t)))
    ++ le32 tsn
    ++ le16 (bswap16 stream_id)
    ++ le16 t.ssn
    ++ le32 t.proto

abbrev pub pad_bytes : (len : ℕ) → ℕ
pad_bytes len = (4 - len % 4) % 4

-- `bundle_plen + bundle_pad`, where there is a chunk already.
abbrev pub bundled_bytes : (bundled : Bool) → List ℕ → ℕ
bundled_bytes bundled bytes =
    let len = bswap16 (get16 bytes (first_chunk + 2)) in if bundled then len + pad_bytes len else 0

-- The padding, which stays as it was behind a chunk that is there already, the header and the data.
abbrev pub with_fragment : (bundled : Bool) → (pad stream_id tsn : ℕ) → Stream → List ℕ → List ℕ
with_fragment bundled pad stream_id tsn t bytes =
    let off = bundled_bytes bundled bytes in
    let n = fragment t in
    let padded =
      if bundled then bytes else write_at (first_chunk + hdr_bytes + n) (replicate pad 0) bytes in
    write_at (first_chunk + hdr_bytes + off) (take n (drop t.pos_current t.buffer))
      (write_at (first_chunk + off) (fragment_hdr stream_id tsn t) padded)

abbrev pub ip_check_stored : List ℕ → Option ℕ → Option (List ℕ)
ip_check_stored bytes none = none
ip_check_stored bytes (some check) = some (write_at 24 (le16 check) bytes)

-- The IPv4 check, with the fuel of `tcp_checksum`.
abbrev pub with_ip_sum : List ℕ → Option (List ℕ)
with_ip_sum bytes =
    let cleared = write_at 24 (le16 0) bytes in
    ip_check_stored cleared (tcp_checksum 3 (drop mac_bytes cleared) 20)

-- The two pushes: a short packet waits for another chunk, and any packet is prefilled again.
abbrev pub prefilled_again : Bundler → Option (Bool × Ringbuf) → Option (Bool × Bundler)
prefilled_again b none = none
prefilled_again b (some (_, r)) = some (true, record b { net = record b.net { prefilled = r } })

abbrev pub bundled_again :
    Bundler → Option (Bool × Ringbuf) → (packet plen : ℕ) → Option (Bool × Bundler)
bundled_again b none packet plen = none
bundled_again b (some (_, r)) packet plen =
    prefilled_again (record b { bundling = r }) (push_ringbuf 0 b.net.prefilled packet plen)

abbrev pub sent_again :
    Bundler → Option (Bool × Ringbuf) → (packet plen : ℕ) → Option (Bool × Bundler)
sent_again b none packet plen = none
sent_again b (some (_, tx)) packet plen =
    prefilled_again (record b { net = record b.net { tx = tx } })
      (push_ringbuf 0 b.net.prefilled packet plen)

abbrev pub queue_packet : (waits : Bool) → (len packet plen : ℕ) → Bundler → Option (Bool × Bundler)
queue_packet waits len packet plen b =
    if waits
    then bundled_again b (push_ringbuf 0 b.bundling packet len) packet plen
    else sent_again b (push_ringbuf 0 b.net.tx packet len) packet plen

abbrev pub stored :
    Bundler
    → (packet : ℕ) → (Bundler → Option (Bool × Bundler))
    → Option (List ℕ)
    → Option (Bool × Bundler)
stored b packet next none = none
stored b packet next (some bytes) =
    next (record b { net = record b.net { mem = λ q. if q == packet then bytes else b.net.mem q } })

-- The function from the packet on. The result is true for 0 and false for -1, and `none` where it
-- writes behind the buffer.
abbrev pub put_fragment :
    Host
    → (stream_id : ℕ) → Stream
    → (bundled : Bool) → (packet plen : ℕ) → Bundler
    → Option (Bool × Bundler)
put_fragment h stream_id t bundled packet plen b =
    let n = fragment t in
    let short = ltb (u32 plen) 1500 in
    let pad = if short then pad_bytes (hdr_bytes + n) else 0 in
    let len = u32 (plen + pad + hdr_bytes + n) in
    let bytes = b.net.mem packet in
    let covered = u16 (hdr_bytes + n) + pad + bundled_bytes bundled bytes in
    let moved = record b {
      tsn = u32 (b.tsn + bswap32 1);
      os_threads =
          set b.os_threads stream_id (some (record t { pos_current = u32 (t.pos_current + n) }));
    } in
    let used =
      first_chunk + hdr_bytes + bundled_bytes bundled bytes + n + (if bundled then 0 else pad) in
    let put = stored moved packet (queue_packet (ltb len 1500 && not bundled) len packet plen) (
      Option.map (patch_sctp h b.ver_tag covered)
        (with_ip_sum (with_fragment bundled pad stream_id b.tsn t bytes))) in
    if ltb (length bytes) used then none else put

-- The cell of the prefilled ring; `none` is the dereference of NULL where there is none.
abbrev pub with_own :
    Host
    → (stream_id : ℕ) → Stream
    → Bundler
    → Option (Option ℕ × Ringbuf)
    → Option (Bool × Bundler)
with_own h stream_id t b none = none
with_own h stream_id t b (some (none, r)) = none
with_own h stream_id t b (some (some i, r)) =
    put_fragment h stream_id t false (cell_at r i).packet (cell_at r i).plen
      (record b { net = record b.net { prefilled = r } })

abbrev pub with_cell :
    Host
    → (stream_id : ℕ) → Stream
    → Bundler
    → Option (Option ℕ × Ringbuf)
    → Option (Bool × Bundler)
with_cell h stream_id t b none = none
with_cell h stream_id t b (some (none, r)) =
    with_own h stream_id t (record b { bundling = r }) (pop_ringbuf 0 b.net.prefilled)
with_cell h stream_id t b (some (some i, r)) =
    put_fragment h stream_id t true (cell_at r i).packet (cell_at r i).plen
      (record b { bundling = r })

-- A stream behind the end of the array is a read out of its bounds.
abbrev pub of_thread :
    Host → (stream_id : ℕ) → Bundler → Option (Option Stream) → Option (Bool × Bundler)
of_thread h stream_id b none = none
of_thread h stream_id b (some none) = some (false, b)
of_thread h stream_id b (some (some t)) = with_cell h stream_id t b (pop_ringbuf 0 b.bundling)

unfoldable pub build_prefilled_mac_ip_sctp_data_hdr :
    Host → (stream_id : ℕ) → Bundler → Option (Bool × Bundler)
build_prefilled_mac_ip_sctp_data_hdr h stream_id b =
    of_thread h stream_id b (get_elem? b.os_threads stream_id)
