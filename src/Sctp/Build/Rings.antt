-- ===== src/Sctp/Build/Rings.antt =====
-- What a builder does to the rings and the buffers.
use libkpnet.Base.{
  ℕ, Option, take, sym, length-take, u16, bswap16, ◌+◌, ◌^◌, ◌<◌, ◌≤◌, drop, ◌≡◌, ◌≢◌, refl, ap,
  ◌∙◌, subst, arith, Bool, true, some, List, [], ◌∷◌, ◌++◌, length, u32, lt→ltb, le→ltb, ne→==,
  eq→==,
}
use libkpnet.Ring.{Ringbuf, pop_ringbuf, push_ringbuf}
use libkpnet.Ring.Inv.{packet_at}
use libkpnet.Ring.Queue
use libkpnet.Ring.Queue.{Queue}
use libkpnet.Ring.Refine.{popped_at, Holds, push_refines, pop_refines, length-Holds}
use libkpnet.Sctp.{Net, Assoc}
use libkpnet.Wire.{le16, le32, write_at, drop-write_at, take-drop-write_at}
use libkpnet.Crc.{Host}
use libkpnet.Sctp.Build.{
  Draws, with_prefilled, delivered, patch_sctp, patch_ip, init_ack_chunk, cookie_echo_chunk,
  build_prefilled_mac_ip_sctp_init_ack_hdr, build_prefilled_mac_ip_sctp_cookie_echo_hdr,
  build_prefilled_mac_ip_sctp_cookie_ack_hdr,
}

with_prefilled-run :
    (net : Net) (bytes : ℕ) (fill : ℕ → List ℕ → List ℕ) (i : ℕ) (r : Ringbuf) {x : ℕ × ℕ}
    {b b' : Bool} {tx r' : Ringbuf}
    → pop_ringbuf 0 net.prefilled ≡ some (some i, r)
    → packet_at r i ≡ x
    → x.0 ≢ 0
    → 46 + bytes ≤ length (net.mem x.0)
    → push_ringbuf 0 net.tx x.0 (u32 (x.1 + bytes)) ≡ some (b, tx)
    → push_ringbuf 0 r x.0 x.1 ≡ some (b', r')
    → with_prefilled net bytes fill
      ≡ some (true, delivered net tx r' x.0 (fill (u32 (x.1 + bytes)) (net.mem x.0)))
unfolding with_prefilled
with_prefilled-run net bytes fill i r {x} e s ne inside f g =
    rw
      (
        e,
        ap (λ y. y.0) s,
        ap (λ y. y.1) s,
        ne→== _ 0 ne,
        le→ltb (length (net.mem x.0)) (46 + bytes) inside,
        f,
        g,
      )
      refl

-- The buffer at the front of the prefilled ring was filled, went to the TX ring where there was
-- room, and is again at the end of the prefilled ring; no other buffer was written.
abbrev pub Delivered :
    (k l : ℕ) → (q t : Queue) → ℕ × ℕ → Net → (bytes : ℕ) → (ℕ → List ℕ → List ℕ) → Type 0
Delivered k l q t x net bytes fill =
    (net' : Net) × (with_prefilled net bytes fill ≡ some (true, net'))
    × Holds k (q ++ x ∷ []) net'.prefilled
    × Holds l (Queue.push (2 ^ l) t (x.0, u32 (x.1 + bytes))).1 net'.tx
    × (net'.mem x.0 ≡ fill (u32 (x.1 + bytes)) (net.mem x.0))
    × ((p : ℕ) → p ≢ x.0 → net'.mem p ≡ net.mem p)

push-room :
    (cap : ℕ) (q : Queue) (x : ℕ × ℕ) → length q < cap → (Queue.push cap q x).1 ≡ q ++ x ∷ []
unfolding Queue.push
push-room cap q x h = rw (lt→ltb _ _ h) refl

-- Where the chunk fits into the buffer at the front of the prefilled ring, the frame of the builders
-- returns 0 and delivers the buffer: the TX ring holds it behind what it held before, unless it is
-- full, and the same buffer is at once at the end of the prefilled ring again.
pub with_prefilled-Delivered :
    {k l : ℕ} (q t : Queue) (x : ℕ × ℕ) (net : Net) (bytes : ℕ) (fill : ℕ → List ℕ → List ℕ)
    → Holds k (x ∷ q) net.prefilled
    → Holds l t net.tx
    → x.0 ≢ 0
    → 46 + bytes ≤ length (net.mem x.0)
    → Delivered k l q t x net bytes fill
unfolding Queue.pop
with_prefilled-Delivered {k} {l} q t x net bytes fill hp ht ne inside =
    let (c, r, e, s, h) = pop_refines 0 hp in
    let (i, ce, at) = popped_at r c s in
    let (tx, f, h1) = push_refines 0 x.0 (u32 (x.1 + bytes)) ht in
    let (r', g, h2) = push_refines 0 x.0 x.1 h in
    let room : length q < 2 ^ k = omega (arith, length-Holds hp, hp.valid.fits) in
    let h3 = subst (λ y. Holds k y r') (push-room (2 ^ k) q x room) h2 in
    (
      delivered net tx r' x.0 (fill (u32 (x.1 + bytes)) (net.mem x.0)),
      with_prefilled-run net bytes fill i r (e ∙ ap (λ u. some (u, r)) ce) at ne inside f g,
      h3,
      h1,
      rw (eq→== x.0 x.0 refl) refl,
      λ p np. rw (ne→== p x.0 np) refl,
    )

-- The bytes behind the SCTP header stay as they are.
pub drop-patch_sctp :
    (p : ℕ) (h : Host) (tag n : ℕ) (b : List ℕ) → 46 ≤ p → drop p (patch_sctp h tag n b) ≡ drop p b
unfolding patch_sctp
drop-patch_sctp p h tag n b far =
    drop-write_at p 42 (le32 _) _ (omega arith)
    ∙ drop-write_at p 42 (le32 0) (write_at 38 (le32 tag) b) (omega arith)
    ∙ drop-write_at p 38 (le32 tag) b (omega arith)

drop-patch_ip : (p plen dest : ℕ) (b : List ℕ) → 46 ≤ p → drop p (patch_ip plen dest b) ≡ drop p b
unfolding patch_ip
drop-patch_ip p plen dest b far =
    drop-write_at p 24 (le16 _) _ (omega arith) ∙ drop-write_at p 16 (le16 _) b (omega arith)

-- The buffer of a packet whose chunk is `chunk` was delivered.
abbrev pub Sends : (k l : ℕ) → (q t : Queue) → ℕ × ℕ → Net → List ℕ → Option (Bool × Net) → Type 0
Sends k l q t x net chunk r =
    (net' : Net) × (r ≡ some (true, net'))
    × (take (length chunk) (drop 46 (net'.mem x.0)) ≡ chunk)
    × Holds l (Queue.push (2 ^ l) t (x.0, u32 (x.1 + length chunk))).1 net'.tx
    × Holds k (q ++ x ∷ []) net'.prefilled

-- A filling that leaves the chunk where it was written.
Keeps : List ℕ → (ℕ → List ℕ → List ℕ) → Type 0
Keeps chunk fill = (plen : ℕ) (b : List ℕ) → drop 46 (fill plen b) ≡ drop 46 (write_at 46 chunk b)

module _ {k l : ℕ} (q t : Queue) (x : ℕ × ℕ) (net : Net) (hp : Holds k (x ∷ q) net.prefilled)
    (ht : Holds l t net.tx) (ne : x.0 ≢ 0) where
  with_prefilled-Sends :
      (chunk : List ℕ) (bytes : ℕ) (fill : ℕ → List ℕ → List ℕ)
      → length chunk ≡ bytes
      → Keeps chunk fill
      → 46 + bytes ≤ length (net.mem x.0)
      → Sends k l q t x net chunk (with_prefilled net bytes fill)
  unfolding Keeps
  with_prefilled-Sends chunk bytes fill len keeps inside =
      let (net', e, front, back, shown, _) =
        with_prefilled-Delivered q t x net bytes fill hp ht ne inside in
      (
        net',
        e,
        ap (λ b. take (length chunk) (drop 46 b)) shown
            ∙ ap (take (length chunk)) (keeps (u32 (x.1 + bytes)) (net.mem x.0))
            ∙ take-drop-write_at 46 chunk (net.mem x.0) (omega (arith, len, inside)),
        subst (λ n. Holds l (Queue.push (2 ^ l) t (x.0, u32 (x.1 + n))).1 net'.tx) (sym len) back,
        front,
      )

  pub cookie_ack-Sends :
      (h : Host) (a : Assoc)
      → 50 ≤ length (net.mem x.0)
      → Sends k l q t x net
          (11 ∷ 0 ∷ 0 ∷ 4 ∷ [])
          (build_prefilled_mac_ip_sctp_cookie_ack_hdr h a net)
  unfolding build_prefilled_mac_ip_sctp_cookie_ack_hdr Keeps
  cookie_ack-Sends h a inside =
      with_prefilled-Sends (11 ∷ 0 ∷ 0 ∷ 4 ∷ []) 4 _ refl
        (λ plen b.
          drop-patch_sctp 46 h a.ver_tag 4 _ (omega arith)
          ∙ drop-write_at 46 36 (le16 a.dst_port) _ (omega arith)
          ∙ drop-patch_ip 46 plen a.dst_ip _ (omega arith)
          ∙ drop-write_at 46 30 (le32 a.dst_ip) _ (omega arith))
        inside

  pub cookie_echo-Sends :
      (h : Host) (a : Assoc)
      → a.id ≤ length a.cookie
      → 50 + a.id ≤ length (net.mem x.0)
      → Sends k l q t x net
          (10 ∷ 0 ∷ le16 (bswap16 (u16 (4 + a.id))) ++ take a.id a.cookie)
          (build_prefilled_mac_ip_sctp_cookie_echo_hdr h a net)
  unfolding build_prefilled_mac_ip_sctp_cookie_echo_hdr cookie_echo_chunk Keeps
  cookie_echo-Sends h a whole inside =
      with_prefilled-Sends (cookie_echo_chunk a) (4 + a.id) _
        (omega (arith, length-take a.id a.cookie whole))
        (λ plen b.
          drop-patch_sctp 46 h a.ver_tag (u16 (4 + a.id)) _ (omega arith)
          ∙ drop-patch_ip 46 plen 0 _ (omega arith))
        (omega (arith, inside))

  pub init_ack-Sends :
      (h : Host) (d : Draws) (a : Assoc)
      → length (init_ack_chunk h d a) ≡ 80
      → 126 ≤ length (net.mem x.0)
      → Sends k l q t x net
          (init_ack_chunk h d a)
          (build_prefilled_mac_ip_sctp_init_ack_hdr h d a net)
  unfolding build_prefilled_mac_ip_sctp_init_ack_hdr Keeps
  init_ack-Sends h d a len inside =
      with_prefilled-Sends (init_ack_chunk h d a) 80 _ len
        (λ plen b.
          drop-patch_sctp 46 h a.ver_tag 80 _ (omega arith)
          ∙ drop-write_at 46 36 (le16 a.dst_port) _ (omega arith)
          ∙ drop-patch_ip 46 plen a.dst_ip _ (omega arith)
          ∙ drop-write_at 46 30 (le32 a.dst_ip) _ (omega arith))
        inside
