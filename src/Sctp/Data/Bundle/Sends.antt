-- ===== src/Sctp/Data/Bundle/Sends.antt =====
-- A fragment in a packet of its own, which is short enough to wait for another one.
use libkpnet.Base.{
  ℕ, ◌+◌, ◌-◌, ◌^◌, ◌≤◌, ◌<◌, ◌≡◌, refl, ap, ◌∙◌, arith, true, false, Option, none, some, List, [],
  ◌∷◌, ◌++◌, length, length-take, length-drop, get_elem?, set, take, drop, replicate, subst, u16,
  u32, sub_u32, bswap32, eq→==, lt→ltb, le→ltb, ◌==◌, if◌then◌else◌,
}
use mathlib.Core.Option
use libkpnet.Ring.{Ringbuf, push_ringbuf}
use libkpnet.Ring.Inv.{two-le-pow}
use libkpnet.Ring.Queue
use libkpnet.Ring.Queue.{Queue}
use libkpnet.Ring.Refine.{Holds, read, popped_at, pop_refines, push_fits, length-Holds}
use libkpnet.Wire.{le16, write_at, length-write_at, take-drop-write_at, drop-write_at}
use libkpnet.Checks.Ones.{tcp_checksum_header}
use libkpnet.Crc.{Host}
use libkpnet.Sctp.Build.{patch_sctp}
use libkpnet.Sctp.Build.Rings.{drop-patch_sctp}
use libkpnet.Sctp.Data.{Stream}
use libkpnet.Sctp.Data.Bundle.{
  Bundler, fragment, fragment_hdr, pad_bytes, with_fragment, with_ip_sum, put_fragment,
  build_prefilled_mac_ip_sctp_data_hdr,
}

not_popped : (rb : Ringbuf) (c : Option ℕ) → read rb c ≡ none → c ≡ none
not_popped rb none e = refl
not_popped rb (some i) e = absurd (cc e)

-- The packet with its two checks, where the data can still be read behind the headers.
abbrev Filled : Host → (tag covered stream_id tsn pad : ℕ) → Stream → List ℕ → Type 0
Filled h tag covered stream_id tsn pad t bytes =
    (out : List ℕ) × (Option.map (patch_sctp h tag covered)
        (with_ip_sum (with_fragment false pad stream_id tsn t bytes))
      ≡ some out)
    × (take (fragment t) (drop 62 out) ≡ take (fragment t) (drop t.pos_current t.buffer))

fills :
    (h : Host) (tag covered stream_id tsn pad : ℕ) (t : Stream) (bytes : List ℕ)
    → t.pos_current + fragment t ≤ length t.buffer
    → 62 + fragment t ≤ length bytes
    → Filled h tag covered stream_id tsn pad t bytes
fills h tag covered stream_id tsn pad t bytes inside room =
    let n = fragment t in
    let payload = take n (drop t.pos_current t.buffer) in
    let len : length payload ≡ n =
      length-take n (drop t.pos_current t.buffer)
        (omega (arith, length-drop t.pos_current t.buffer, inside)) in
    let padded = write_at (62 + n) (replicate pad 0) bytes in
    let headed = write_at 46 (fragment_hdr stream_id tsn t) padded in
    let full = write_at 62 payload headed in
    let cleared = write_at 24 (le16 0) full in
    let (c, e) = tcp_checksum_header (drop 14 cleared) in
    let summed = write_at 24 (le16 c) cleared in
    let size : length headed ≡ length bytes =
      length-write_at 46 (fragment_hdr stream_id tsn t) padded
      ∙ length-write_at (62 + n) (replicate pad 0) bytes in
    let same : drop 62 (patch_sctp h tag covered summed) ≡ drop 62 full =
      drop-patch_sctp 62 h tag covered summed (omega arith)
      ∙ drop-write_at 62 24 (le16 c) cleared (omega arith)
      ∙ drop-write_at 62 24 (le16 0) full (omega arith) in
    (
      patch_sctp h tag covered summed,
      rw e refl,
      ap (take n) same
          ∙ subst (λ k. take k (drop 62 full) ≡ payload) len
              (take-drop-write_at 62 payload headed (omega (arith, len, size, room))),
    )

-- The stream has data, which fills a packet to less than 1500 bytes, and the buffer has room for it.
pub record IsShort (stream_id : ℕ) (t : Stream) (x : ℕ × ℕ) (b : Bundler) : Type 0 where
  pub here : get_elem? b.os_threads stream_id ≡ some (some t)
  pub some_data : t.pos_current < t.pos_high
  pub in_buffer : t.pos_high ≤ length t.buffer
  pub word : t.pos_high < 2 ^ 32
  pub short : x.1 + fragment t + 19 < 1500
  pub in_packet : 62 + fragment t + 3 ≤ length (b.net.mem x.0)

abbrev len_of : Stream → ℕ × ℕ → ℕ
len_of t x = x.1 + pad_bytes (16 + fragment t) + 16 + fragment t

-- The state behind a short fragment.
abbrev waiting :
    (stream_id p : ℕ) → Stream → Bundler → (bundling prefilled : Ringbuf) → List ℕ → Bundler
waiting stream_id p t b bundling prefilled out = record {
  net = record {
    prefilled = prefilled;
    tx = b.net.tx;
    mem = λ q. if q == p then out else b.net.mem q;
  };
  bundling = bundling;
  tsn = u32 (b.tsn + bswap32 1);
  ver_tag = b.ver_tag;
  os_threads =
      set b.os_threads stream_id
        (some (record t { pos_current = u32 (t.pos_current + fragment t) }));
}

put_fragment-run :
    (h : Host) (stream_id p l : ℕ) (t : Stream) (b : Bundler) {bu r : Ringbuf} {out : List ℕ}
    → l + fragment t + 19 < 1500
    → 62 + fragment t + 3 ≤ length (b.net.mem p)
    → Option.map
        (patch_sctp h b.ver_tag (u16 (16 + fragment t) + pad_bytes (16 + fragment t) + 0))
        (with_ip_sum
          (with_fragment false (pad_bytes (16 + fragment t)) stream_id b.tsn t (b.net.mem p)))
      ≡ some out
    → push_ringbuf 0 b.bundling p (len_of t (p, l)) ≡ some (true, bu)
    → push_ringbuf 0 b.net.prefilled p l ≡ some (true, r)
    → put_fragment h stream_id t false p l b ≡ some (true, waiting stream_id p t b bu r out)
put_fragment-run h stream_id p l t b short inside fill f g =
    let pad = pad_bytes (16 + fragment t) in
    let len : u32 (l + pad + 16 + fragment t) ≡ len_of t (p, l) = omega (arith, short) in
    rw
      (
        lt→ltb (u32 l) 1500 (omega (arith, short)),
        le→ltb (length (b.net.mem p)) (62 + fragment t + pad) (omega (arith, inside)),
        fill,
        len,
        lt→ltb (len_of t (p, l)) 1500 (omega (arith, short)),
        f,
        g,
      )
      refl

abbrev pub Waits : (k m : ℕ) → Queue → Host → (stream_id : ℕ) → Stream → ℕ × ℕ → Bundler → Type 0
Waits k m q h stream_id t x b =
    let n = fragment t in
    (b' : Bundler) × (build_prefilled_mac_ip_sctp_data_hdr h stream_id b ≡ some (true, b'))
    × (0 < n)
    × (b'.os_threads
        ≡ set b.os_threads stream_id (some (record t { pos_current = t.pos_current + n })))
    × (t.pos_current + n ≤ t.pos_high)
    × (take n (drop 62 (b'.net.mem x.0)) ≡ take n (drop t.pos_current t.buffer))
    × Holds m ((x.0, len_of t x) ∷ []) b'.bundling
    × Holds k (q ++ x ∷ []) b'.net.prefilled
    × (b'.net.tx ≡ b.net.tx)

module _ {k m : ℕ} (h : Host) (q : Queue) (stream_id : ℕ) (t : Stream) (x : ℕ × ℕ) (b : Bundler)
    (hm : Holds m [] b.bundling) (hp : Holds k (x ∷ q) b.net.prefilled)
    (v : IsShort stream_id t x b) where
  -- Where nothing waits in assoc->bundling, the stream has data, the packet stays below 1500 bytes
  -- and its buffer has room for it, the call returns 0. The packet then has the next bytes of the stream behind the header
  -- of the chunk, the stream has moved on by just these, and the packet waits for another chunk with
  -- its length in assoc->bundling, but the prefilled ring holds the same buffer again.
  pub build_prefilled_mac_ip_sctp_data_hdr-Waits : Waits k m q h stream_id t x b
  unfolding build_prefilled_mac_ip_sctp_data_hdr Queue.pop
  build_prefilled_mac_ip_sctp_data_hdr-Waits =
      let n = fragment t in
      let (c, bu, e, s, hm') = pop_refines 0 hm in
      let gone = not_popped bu c s in
      let (d, r, e', s', hp') = pop_refines 0 hp in
      let (i, de, at) = popped_at r d s' in
      let left : sub_u32 t.pos_high t.pos_current ≡ t.pos_high - t.pos_current =
        omega (arith, v.some_data, v.word) in
      let (bu', f, hb) =
        push_fits 0 x.0 (len_of t x) hm' (omega (arith, two-le-pow m hm'.valid.wide)) in
      let (r', g, hr) = push_fits 0 x.0 x.1 hp' (omega (arith, length-Holds hp, hp.valid.fits)) in
      let pad = pad_bytes (16 + n) in
      let (out, fill, shown) =
        fills h b.ver_tag (u16 (16 + n) + pad + 0) stream_id b.tsn pad t (b.net.mem x.0)
          (omega (arith, v.in_buffer, left, v.some_data)) (omega (arith, v.in_packet)) in
      let own = record b { bundling = bu; net = record b.net { prefilled = r } } in
      (
        waiting stream_id x.0 t b bu' r' out,
        rw (v.here, e, gone, e', de, ap (λ y. y.0) at, ap (λ y. y.1) at)
            (put_fragment-run h stream_id x.0 x.1 t own v.short v.in_packet fill f g),
        omega (arith, left, v.some_data),
        ap (λ p. set b.os_threads stream_id (some (record t { pos_current = p })))
            (omega (arith, left, v.some_data, v.word)),
        omega (arith, left, v.some_data),
        rw (eq→== x.0 x.0 refl) shown,
        hb,
        hr,
        refl,
      )
