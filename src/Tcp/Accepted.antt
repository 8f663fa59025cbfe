-- ===== src/Tcp/Accepted.antt =====
-- What `fix_check_ip_tcp` makes of a packet passes `if_ip_tcp`.
use Prim.{tt}
use libkpnet.Base.{
  ℕ, zero, suc, ◌+◌, ◌-◌, ◌*◌, ◌/◌, ◌%◌, ◌<◌, ◌≡◌, refl, arith, true, none, some, List, [], ◌∷◌,
  ◌++◌, take, drop, eq→==, gt→leb,
}
use libkpnet.Wire.{le16, le32, get32, write_at, HwAddr, hw_bytes, read16}
use libkpnet.Checks.{ip_checksum}
use libkpnet.Checks.Verify.{not_u16}
use libkpnet.Checks.Ones.{IsBytes, tcp_checksum-ip_checksum}
use libkpnet.Tcp.{
  data_offset, checked_part, tcp_check, fix_check_ip_tcp, TcpMeta, note_peer, if_ip_tcp,
  pseudo_bytes,
}

-- The fields of the Ethernet, IPv4 and TCP headers but for the two checks, as they stand in memory.
pub record Headers : Type 0 where
  pub gateway : HwAddr
  pub dev : HwAddr
  pub type : ℕ
  pub ver_tos : ℕ
  pub len : ℕ
  pub indent : ℕ
  pub frag : ℕ
  pub ttl_proto : ℕ
  pub src : ℕ
  pub dst : ℕ
  pub srcp : ℕ
  pub dstp : ℕ
  pub seq : ℕ
  pub ack : ℕ
  pub flags : ℕ
  pub win : ℕ
  pub urgent : ℕ

-- A packet with its two checks, and the options and data behind the headers.
abbrev pub packet : Headers → (ip_check tcp_check : ℕ) → List ℕ → List ℕ
packet h ip_check tcp_check rest =
    hw_bytes h.gateway
    ++ hw_bytes h.dev
    ++ le16 h.type
    ++ le16 h.ver_tos
    ++ le16 h.len
    ++ le16 h.indent
    ++ le16 h.frag
    ++ le16 h.ttl_proto
    ++ le16 ip_check
    ++ le32 h.src
    ++ le32 h.dst
    ++ le16 h.srcp
    ++ le16 h.dstp
    ++ le32 h.seq
    ++ le32 h.ack
    ++ le16 h.flags
    ++ le16 h.win
    ++ le16 tcp_check
    ++ le16 h.urgent
    ++ rest

take-IsBytes : (n : ℕ) (b : List ℕ) → IsBytes b → IsBytes (take n b)
take-IsBytes zero b h = tt
take-IsBytes (suc n) [] h = tt
take-IsBytes (suc n) (x ∷ b) (h, i) = (h, take-IsBytes n b i)

-- Numbers whose remainders are the bytes of a `u16` and of a `u32`.
abbrev b16 : ℕ → List ℕ
b16 x = x ∷ x / 256 ∷ []

abbrev b32 : ℕ → List ℕ
b32 x = x ∷ x / 256 ∷ x / 65536 ∷ x / 16777216 ∷ []

abbrev low_bytes : List ℕ → List ℕ → List ℕ
low_bytes [] c = c
low_bytes (x ∷ xs) c = x % 256 ∷ low_bytes xs c

low_bytes-IsBytes : (xs c : List ℕ) → IsBytes c → IsBytes (low_bytes xs c)
low_bytes-IsBytes [] c i = i
low_bytes-IsBytes (x ∷ xs) c i = (omega arith, low_bytes-IsBytes xs c i)

-- After `fix_check_ip_tcp` without a prepared sum, `if_ip_tcp` accepts the packet, notes the peer,
-- and leaves the IPv4 check cleared.
abbrev pub PassesFixed : List ℕ → (size : ℕ) → TcpMeta → Type 0
PassesFixed p size m =
    (q : List ℕ) × (fix_check_ip_tcp 3 none p ≡ some q)
    × (if_ip_tcp 3 q size m ≡ some (true, note_peer p m, write_at 24 (le16 0) q))

module _ (h : Headers) (rest : List ℕ) (bytes : IsBytes rest) where
  abbrev cleared : List ℕ
  cleared = packet h 0 0 rest

  abbrev ip_sum : ℕ
  ip_sum = not_u16 (ip_checksum (drop 14 cleared) 20)

  tcp-IsBytes : IsBytes (drop 34 cleared)
  tcp-IsBytes =
      low_bytes-IsBytes
        (b16 h.srcp
          ++ b16 h.dstp
          ++ b32 h.seq
          ++ b32 h.ack
          ++ b16 h.flags
          ++ b16 h.win
          ++ b16 0
          ++ b16 h.urgent)
        rest bytes

  part-IsBytes : IsBytes (checked_part cleared)
  part-IsBytes =
      low_bytes-IsBytes
        (b32 (get32 cleared 26) ++ b32 (get32 cleared 30) ++ b16 (256 * 6) ++ b16 (256 * 20))
        (take (data_offset cleared) (drop 34 cleared))
        (take-IsBytes (data_offset cleared) (drop 34 cleared) tcp-IsBytes)

  abbrev tcp_sum : ℕ
  tcp_sum = 65535 - ip_checksum (checked_part cleared) (pseudo_bytes + data_offset cleared)

  tcp_check-tcp_sum : tcp_check 3 cleared ≡ some tcp_sum
  tcp_check-tcp_sum =
      tcp_checksum-ip_checksum (checked_part cleared) (pseudo_bytes + data_offset cleared)
        part-IsBytes (omega arith) (omega arith)

  fixed :
      (check : ℕ)
      → fix_check_ip_tcp 3 none (packet h check 0 rest) ≡ some (packet h ip_sum tcp_sum rest)
  unfolding fix_check_ip_tcp write_at ip_checksum
  fixed check = rw tcp_check-tcp_sum refl

  module _ (size : ℕ) (m : TcpMeta) (long : 50 < size) (for_us : m.src_ip ≡ get32 cleared 30) where
    accepted :
        if_ip_tcp 3 (packet h ip_sum tcp_sum rest) size m
        ≡ some (true, note_peer (packet h 0 tcp_sum rest) m, packet h 0 tcp_sum rest)
    unfolding if_ip_tcp write_at ip_checksum
    accepted =
        rw
          (
            gt→leb size 50 long,
            for_us,
            eq→== (get32 cleared 30) (get32 cleared 30) refl,
            read16 ip_sum (omega arith),
            eq→== ip_sum ip_sum refl,
            tcp_check-tcp_sum,
            read16 tcp_sum (omega arith),
            eq→== tcp_sum tcp_sum refl,
          )
          refl

    -- A packet of more than 50 bytes to the host of `m`, whose TCP check is 0, is accepted by
    -- `if_ip_tcp` after `fix_check_ip_tcp`, whatever its IPv4 check was, with or without options
    -- and data.
    pub fix_check_ip_tcp-PassesFixed : (check : ℕ) → PassesFixed (packet h check 0 rest) size m
    unfolding write_at
    fix_check_ip_tcp-PassesFixed check = (packet h ip_sum tcp_sum rest, fixed check, accepted)
