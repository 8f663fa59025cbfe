-- ===== src/Legacy/Exchange.antt =====
-- src/build_sctp_hdr_raw.c and src/if_sctp.c: the packets that one side builds for the other.
use libkpnet.Base.{
  ◌*◌, ℕ, ◌+◌, ◌^◌, ◌/◌, ◌%◌, ◌≤◌, ◌<◌, ◌≡◌, refl, sym, ap, ◌∙◌, arith, Bool, true, some, List, [],
  ◌∷◌, ◌++◌, drop, take, length, bswap16, eq→==, le→ltb,
}
use libkpnet.Wire.{le16, le32, get16, get32, overwrite, write_at, read16, read32}
use libkpnet.Crc.{Host, generate_crc32c}
use libkpnet.Sctp.{listen, init_received, type_init, type_init_ack}
use libkpnet.Legacy.{
  Conn, TagDraws, chunk_headers, init_body, drawn, build_sctp_hdr_raw, on_init, on_init_ack,
  on_chunk, if_sctp,
}

overwrite-append :
    (xs b : List ℕ) → length xs ≤ length b → overwrite xs b ≡ xs ++ drop (length xs) b
overwrite-append [] b h = refl
overwrite-append (x ∷ xs) [] h = absurd (omega arith)
overwrite-append (x ∷ xs) (y ∷ b) h = ap (λ t. x ∷ t) (overwrite-append xs b (omega arith))

read16-bswap16 : (v : ℕ) → v < 65536 → bswap16 (bswap16 v % 256 + 256 * (bswap16 v / 256 % 256)) ≡ v
read16-bswap16 v h = omega arith

-- A packet with an INIT or an INIT ACK and its check.
abbrev packet : TagDraws → (srcp dstp tag type len os mis a_rwnd check : ℕ) → List ℕ → List ℕ
packet d srcp dstp tag type len os mis a_rwnd check rest =
    le16 (bswap16 srcp)
    ++ le16 (bswap16 dstp)
    ++ le32 tag
    ++ le32 check
    ++ type ∷ 0 ∷ le16 (bswap16 len)
    ++ init_body d.tag a_rwnd os mis d.tsn
    ++ rest

module _ (h : Host) (d : TagDraws) (srcp dstp tag type len os mis a_rwnd : ℕ) (rest : List ℕ) where
  abbrev cleared : List ℕ
  cleared = packet d srcp dstp tag type len os mis a_rwnd 0 rest

  abbrev crc : ℕ
  crc = generate_crc32c h (take (12 + len) cleared)

  abbrev sent : List ℕ
  sent = packet d srcp dstp tag type len os mis a_rwnd crc rest

  crc_bound : crc < 2 ^ 32
  unfolding generate_crc32c
  crc_bound = omega arith

  -- The receiver comes to the chunk, with the check cleared.
  comes_through :
      (c : Conn)
      → len < 65536
      → c.dstport ≡ bswap16 srcp
      → c.srcport ≡ bswap16 dstp
      → (size : ℕ) → 16 ≤ size
      → if_sctp h sent size c ≡ on_chunk cleared c
  unfolding if_sctp write_at
  comes_through c small theirs ours size long =
      rw
        (
          le→ltb size 16 long,
          eq→== (get16 sent 0) c.dstport (read16 (bswap16 srcp) (omega arith) ∙ sym theirs),
          eq→== (get16 sent 2) c.srcport (read16 (bswap16 dstp) (omega arith) ∙ sym ours),
          read16-bswap16 len small,
          eq→== (get32 sent 8) crc (read32 crc crc_bound),
        )
        refl

module _ (h : Host) (d : TagDraws) (srcp dstp os mis a_rwnd : ℕ) (c : Conn) (p : List ℕ)
    (room : 32 ≤ length p) where
  built_init :
      build_sctp_hdr_raw h d srcp dstp type_init os mis a_rwnd c p
      ≡ (true, drawn d os mis c, sent h d srcp dstp 0 type_init 20 os mis a_rwnd (drop 32 p))
  unfolding build_sctp_hdr_raw write_at
  built_init =
      rw
        (overwrite-append
          (chunk_headers srcp dstp 0 type_init 20 ++ init_body d.tag a_rwnd os mis d.tsn) p room)
        refl

  built_init_ack : build_sctp_hdr_raw h d srcp dstp type_init_ack os mis a_rwnd c p ≡ (
    true,
    drawn d os mis c,
    sent h d srcp dstp c.src_ver_tag type_init_ack 28 os mis a_rwnd (drop 32 p),
  )
  unfolding build_sctp_hdr_raw write_at
  built_init_ack =
      rw
        (overwrite-append
          (chunk_headers srcp dstp c.src_ver_tag type_init_ack 28
            ++ init_body d.tag a_rwnd os mis d.tsn)
          p room)
        refl

module _ (h : Host) (d : TagDraws) (srcp dstp tag os mis a_rwnd : ℕ) (rest : List ℕ) (c : Conn)
    (theirs : c.dstport ≡ bswap16 srcp) (ours : c.srcport ≡ bswap16 dstp) where
  took_init :
      let p = cleared h d srcp dstp 0 type_init 20 os mis a_rwnd rest in
      c.status ≡ listen
      → if_sctp h (sent h d srcp dstp 0 type_init 20 os mis a_rwnd rest) 32 c
        ≡ some (true, on_init p c, p)
  took_init st =
      comes_through h d srcp dstp 0 type_init 20 os mis a_rwnd rest c (omega arith) theirs ours 32
        (omega arith)
      ∙ rw st refl

  took_init_ack :
      let p = cleared h d srcp dstp tag type_init_ack 28 os mis a_rwnd rest in
      get32 p 4 ≡ c.dst_ver_tag
      → if_sctp h (sent h d srcp dstp tag type_init_ack 28 os mis a_rwnd rest) 40 c
        ≡ some (true, on_init_ack p c, p)
  took_init_ack known =
      comes_through h d srcp dstp tag type_init_ack 28 os mis a_rwnd rest c (omega arith) theirs
        ours 40 (omega arith)
      ∙ rw
          (eq→== (get32 (cleared h d srcp dstp tag type_init_ack 28 os mis a_rwnd rest) 4)
            c.dst_ver_tag known)
          refl

-- The packet that `build_sctp_hdr_raw` builds for one side, taken by the other.
abbrev Takes : Host → (size : ℕ) → Bool × Conn × List ℕ → Conn → Conn → Type 0
Takes h size (ok, c, p) from to =
    (q : List ℕ) × (ok ≡ true) × (if_sctp h p size from ≡ some (true, to, q))

module _ (h : Host) (d e : TagDraws) (a b os mis a_rwnd os' mis' a_rwnd' : ℕ) (client server : Conn)
    (p q : List ℕ) where
  abbrev init : Bool × Conn × List ℕ
  init = build_sctp_hdr_raw h d a b type_init os mis a_rwnd client p

  abbrev init_ack : Conn → Bool × Conn × List ℕ
  init_ack s = build_sctp_hdr_raw h e b a type_init_ack os' mis' a_rwnd' s q

  abbrev pub Exchanged : Type 0
  Exchanged =
      (s : Conn) × (c : Conn) × Takes h 32 init server s
      × Takes h 40 (init_ack s) (init).1 c
      × (s.status ≡ init_received)
      × (s.src_ver_tag ≡ (init).1.dst_ver_tag)
      × (c.src_ver_tag ≡ (init_ack s).1.dst_ver_tag)

  -- Where the ports of the two sides fit, the buffers hold 32 and 40 bytes, the tags that are drawn
  -- have 32 bits and the server is in SCTP_LISTEN, the INIT that build_sctp_hdr_raw builds for the
  -- client passes if_sctp of the server, the INIT ACK built after it passes if_sctp of the client,
  -- the server is then in SCTP_INIT_RECEIVED, and each side has the tag that the other expects.
  pub build_sctp_hdr_raw-Exchanged :
      32 ≤ length p
      → 40 ≤ length q
      → d.tag < 2 ^ 32
      → e.tag < 2 ^ 32
      → client.srcport ≡ bswap16 a
      → client.dstport ≡ bswap16 b
      → server.srcport ≡ bswap16 b
      → server.dstport ≡ bswap16 a
      → server.status ≡ listen
      → Exchanged
  build_sctp_hdr_raw-Exchanged lp lq td te cs cd ss sd st =
      let s = on_init (cleared h d a b 0 type_init 20 os mis a_rwnd (drop 32 p)) server in
      let tag = s.src_ver_tag in
      let known = read32 d.tag td in
      let r = cleared h e b a tag type_init_ack 28 os' mis' a_rwnd' (drop 32 q) in
      rw (built_init h d a b os mis a_rwnd client p lp) (
        s,
        on_init_ack r (drawn d os mis client),
        (_, refl, took_init h d a b 0 os mis a_rwnd (drop 32 p) server sd ss st),
        rw (built_init_ack h e b a os' mis' a_rwnd' s q (omega arith)) (
          _,
          refl,
          took_init_ack h e b a tag os' mis' a_rwnd' (drop 32 q) (drawn d os mis client) cd cs
              (read32 tag (omega arith) ∙ known),
        ),
        refl,
        known,
        rw (built_init_ack h e b a os' mis' a_rwnd' s q (omega arith)) (read32 e.tag te),
      )
