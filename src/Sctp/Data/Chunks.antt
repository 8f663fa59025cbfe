-- ===== src/Sctp/Data/Chunks.antt =====
-- The chunk that a call of the builder adds, and the call that has nothing to add.
use libkpnet.Base.{
  ℕ, zero, suc, ◌+◌, ◌-◌, ◌%◌, ◌^◌, ◌≤◌, ◌<◌, ◌≡◌, ◌≢◌, refl, sym, ap, ◌∙◌, arith, Bool, Option,
  none, some, inl, inr, length, length-append, length-take, length-drop, length-replicate,
  get_elem?, take, drop, replicate, min, sub_u32, ltb, Bool-cases, eq→==, ne→==, lt→ltb, le→ltb,
  dec_lt,
}
use mathlib.Core.Option.{some-injective}
use libkpnet.Ring.{Ringbuf}
use libkpnet.Wire.{le32, write_at, take-drop-write_at, drop-write_at}
use libkpnet.Sctp.Data.{
  Stream, Sender, hdr_bytes, first_chunk, flush, queued, next_packet, proceed, room, data_len,
  aligned, fitted, data_chunk, put_chunk, data_loop, sctp_build_data_hdr,
}

-- A flush leaves the streams alone.
next_packet-streams :
    (s : Sender) {s' : Sender} (r : Option (Option ℕ × Ringbuf))
    → next_packet s r ≡ some s'
    → s'.streams ≡ s.streams
next_packet-streams s none e = absurd (cc e)
next_packet-streams s (some (none, r)) e = absurd (cc e)
next_packet-streams s (some (some i, r)) e = ap (λ s. s.streams) (sym (some-injective _ _ e))

queued-streams :
    (s : Sender) {s' : Sender} (r : Option (Bool × Ringbuf))
    → queued s r ≡ some s'
    → s'.streams ≡ s.streams
queued-streams s none e = absurd (cc e)
queued-streams s (some (b, tx)) e =
    next_packet-streams (record s { net = record s.net { tx = tx } }) _ e

flush-streams : (s s' : Sender) → flush s ≡ some s' → s'.streams ≡ s.streams
unfolding flush
flush-streams s s' e = queued-streams s _ e

-- The stream has nothing left to send.
pub record IsSpent (stream_id : ℕ) (t : Stream) (s : Sender) : Type 0 where
  pub here : get_elem? s.streams stream_id ≡ some t
  pub spent : t.pos_current ≡ t.pos_high

pub flush-IsSpent :
    {stream_id : ℕ} {t : Stream} (s s' : Sender)
    → flush s ≡ some s'
    → IsSpent stream_id t s
    → IsSpent stream_id t s'
flush-IsSpent {stream_id} s s' e v = record {
  here = ap (λ ts. get_elem? ts stream_id) (flush-streams s s' e) ∙ v.here;
  spent = v.spent;
}

-- A continuation that has no result is not reached, or has none.
proceed-none :
    (next : Sender → Option Sender) (r : Option Sender)
    → ((s : Sender) → r ≡ some s → next s ≡ none)
    → proceed next r ≡ none
proceed-none next none h = refl
proceed-none next (some s) h = h s refl

pub no_data : (s : Sender) (t : Stream) → t.pos_current ≡ t.pos_high → data_len s t ≡ 0
no_data s t e = let left : sub_u32 t.pos_high t.pos_current ≡ 0 = omega arith in omega (arith, left)

spent_loop :
    (fuel : ℕ) {stream_id : ℕ} {t : Stream} (s : Sender)
    → IsSpent stream_id t s
    → data_loop fuel stream_id s ≡ none
unfolding data_loop
spent_loop zero s v = refl
spent_loop (suc fuel) {stream_id} {t} s v = rw (v.here) (
    rw (eq→== (data_len s t) 0 (no_data s t v.spent)) (
      proceed-none (data_loop fuel stream_id) (flush s)
        (λ s' e. spent_loop fuel s' (flush-IsSpent s s' e v))))

-- For a stream without data left, the call has no result, whatever the fuel is.
pub sctp_build_data_hdr-spent :
    (fuel stream_id : ℕ) (t : Stream) (s : Sender)
    → s.current_packet ≢ 0
    → get_elem? s.streams stream_id ≡ some t
    → t.pos_current ≡ t.pos_high
    → sctp_build_data_hdr fuel stream_id s ≡ none
unfolding sctp_build_data_hdr
sctp_build_data_hdr-spent fuel stream_id t s np here spent =
    let v : IsSpent stream_id t s = record { here = here; spent = spent } in
    rw (ne→== s.current_packet 0 np) (elim (Bool-cases (ltb s.remain_plen (hdr_bytes + 4))) [
      | inl e ↦ rw e (
          proceed-none (data_loop fuel stream_id) (flush s)
            (λ s' e. spent_loop fuel s' (flush-IsSpent s s' e v)))
      | inr e ↦ rw e (spent_loop fuel s v)
    ])

-- The sizes of the chunk: some data, and no more with its padding than there is room for.
abbrev Sizes : (room left pplen plen : ℕ) → Type 0
Sizes room left pplen plen =
    (0 < pplen) × (pplen ≤ left) × (pplen ≤ plen) × (plen ≤ room) × (plen % 4 ≡ 0)

fitted-Sizes :
    (room left : ℕ)
    → 4 ≤ room
    → room < 2 ^ 32
    → 0 < left
    → left < 2 ^ 32 - 3
    → let (pplen, plen) = fitted room (min room left) in Sizes room left pplen plen
fitted-Sizes room left h i j k = elim (dec_lt room (aligned (min room left))) [
  | yes over ↦
      rw (lt→ltb room (aligned (min room left)) over)
        (omega arith, omega arith, omega arith, omega arith, omega arith)
  | no fits ↦
      rw (le→ltb room (aligned (min room left)) (omega arith))
        (omega arith, omega arith, omega arith, omega arith, omega arith)
]

-- The sender has a packet with room, and the stream has data.
pub record IsReady (stream_id : ℕ) (t : Stream) (s : Sender) : Type 0 where
  pub not_null : s.current_packet ≢ 0
  pub enough : 20 ≤ s.remain_plen
  pub word : s.remain_plen < 2 ^ 32
  pub here : get_elem? s.streams stream_id ≡ some t
  pub some_data : t.pos_current < t.pos_high
  pub in_buffer : t.pos_high ≤ length t.buffer
  pub small : t.pos_high < 2 ^ 32 - 3
  pub behind_headers : first_chunk ≤ s.cursor
  pub in_packet : s.cursor + s.remain_plen ≤ length (s.net.mem s.current_packet)

-- The call returns; behind it the packet has the whole chunk at the cursor, with some of the data
-- and its padding, and the cursor has moved on by the data and the padding.
abbrev pub Writes : (fuel stream_id : ℕ) → Stream → Sender → Type 0
Writes fuel stream_id t s =
    (s' : Sender) × (pplen : ℕ) × (plen : ℕ) × (sctp_build_data_hdr fuel stream_id s ≡ some s')
    × Sizes (room s) (t.pos_high - t.pos_current) pplen plen
    × (take (hdr_bytes + plen) (drop s.cursor (s'.net.mem s.current_packet))
        ≡ data_chunk stream_id s.tsn pplen plen t)
    × (s'.cursor ≡ s.cursor + plen)

length-data_chunk :
    (stream_id tsn pplen plen : ℕ) (t : Stream)
    → t.pos_current + pplen ≤ length t.buffer
    → pplen ≤ plen
    → length (data_chunk stream_id tsn pplen plen t) ≡ hdr_bytes + plen
length-data_chunk stream_id tsn pplen plen t h i =
    let payload = take pplen (drop t.pos_current t.buffer) in
    omega (
      arith,
      length-append payload (replicate (plen - pplen) 0),
      length-take pplen (drop t.pos_current t.buffer)
          (omega (arith, length-drop t.pos_current t.buffer)),
      length-replicate {A = ℕ} (plen - pplen) 0,
    )

chunk_there :
    (stream_id pplen plen : ℕ) (t : Stream) (s : Sender)
    → IsReady stream_id t s
    → Sizes (room s) (t.pos_high - t.pos_current) pplen plen
    → take
        (hdr_bytes + plen)
        (drop s.cursor ((put_chunk stream_id t (pplen, plen) s).net.mem s.current_packet))
      ≡ data_chunk stream_id s.tsn pplen plen t
chunk_there stream_id pplen plen t s v (_, sz, le, fit, _) =
    let chunk = data_chunk stream_id s.tsn pplen plen t in
    let len =
      length-data_chunk stream_id s.tsn pplen plen t (omega (arith, v.in_buffer, v.some_data)) le in
    rw (eq→== s.current_packet s.current_packet refl) (
      ap (take (hdr_bytes + plen)) (
        drop-write_at s.cursor 38 (le32 s.ver_tag)
          (write_at s.cursor chunk (s.net.mem s.current_packet)) (omega (arith, v.behind_headers)))
      ∙ ap (λ n. take n (drop s.cursor (write_at s.cursor chunk (s.net.mem s.current_packet))))
          (sym len)
      ∙ take-drop-write_at s.cursor chunk (s.net.mem s.current_packet)
          (omega (arith, len, v.in_packet, v.enough, v.word)))

-- A call with room in the packet and data in the stream writes one whole chunk at the cursor. The
-- cursor moves only behind the data of it, without the 16 bytes of its header, so that the header
-- of the next chunk comes to lie on the end of this one.
pub sctp_build_data_hdr-Writes :
    (fuel stream_id : ℕ) (t : Stream) (s : Sender)
    → IsReady stream_id t s
    → Writes (suc fuel) stream_id t s
unfolding sctp_build_data_hdr data_loop
sctp_build_data_hdr-Writes fuel stream_id t s v =
    let r : room s ≡ s.remain_plen - 16 = omega (arith, v.enough, v.word) in
    let l : sub_u32 t.pos_high t.pos_current ≡ t.pos_high - t.pos_current =
      omega (arith, v.some_data, v.small) in
    let n : data_len s t ≡ min (room s) (t.pos_high - t.pos_current) =
      omega (arith, r, l, v.word) in
    let sizes =
      fitted-Sizes (room s) (t.pos_high - t.pos_current) (omega (arith, r, v.enough))
        (omega (arith, r, v.word)) (omega (arith, v.some_data)) (omega (arith, v.small)) in
    let (pplen, plen) = fitted (room s) (min (room s) (t.pos_high - t.pos_current)) in
    (
      put_chunk stream_id t (pplen, plen) s,
      pplen,
      plen,
      rw (ne→== s.current_packet 0 v.not_null, le→ltb s.remain_plen 20 v.enough, v.here)
          (rw (ne→== (data_len s t) 0 (λ z. absurd (omega (arith, z, n, r, v.enough, v.some_data))))
            (ap (λ k. some (put_chunk stream_id t (fitted (room s) k) s)) n)),
      sizes,
      chunk_there stream_id pplen plen t s v sizes,
      refl,
    )
