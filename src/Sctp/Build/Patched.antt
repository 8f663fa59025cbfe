-- ===== src/Sctp/Build/Patched.antt =====
-- The incremental update of the IPv4 check in the builders.
use Prim.{tt}
use libkpnet.Base.{
  ℕ, ◌+◌, ◌-◌, ◌/◌, ◌%◌, ◌^◌, ◌≤◌, ◌<◌, ◌≡◌, refl, sym, ap, ◌∙◌, arith, List, ◌∷◌, ◌++◌, drop, u16,
  bswap16, ◌↔◌, subst,
}
use libkpnet.Wire.{mac_bytes, ip_bytes, le16, le32, get16, write_at, HwAddr, hw_bytes, read16}
use libkpnet.Checks.{words, ip_checksum}
use libkpnet.Checks.Ones.{ones_sum, total, IsBytes, ip_checksum-ones_sum}
use libkpnet.Checks.Verify.{not_u16}
use libkpnet.Sctp.Build.{patched_check, patch_ip, ip_dest_at}

-- The fields of an IPv4 header that a builder leaves alone, each of one byte.
pub record Fields : Type 0 where
  pub version : ℕ
  pub tos : ℕ
  pub id0 : ℕ
  pub id1 : ℕ
  pub off0 : ℕ
  pub off1 : ℕ
  pub ttl : ℕ
  pub proto : ℕ
  pub src0 : ℕ
  pub src1 : ℕ
  pub src2 : ℕ
  pub src3 : ℕ

abbrev pub header : Fields → (len check dst : ℕ) → List ℕ
header f len check dst =
    f.version ∷ f.tos ∷ le16 len
    ++ f.id0 ∷ f.id1 ∷ f.off0 ∷ f.off1 ∷ f.ttl ∷ f.proto ∷ le16 check
    ++ f.src0 ∷ f.src1 ∷ f.src2 ∷ f.src3 ∷ le32 dst

-- The sum of the update before it is folded, for a borrow out of the 32 bits.
abbrev pub borrowed : (chk len dest : ℕ) → ℕ
borrowed chk len dest = chk + 2 ^ 32 - len - dest

-- The fold of the update loses a carry.
abbrev pub LosesCarry : (chk len dest : ℕ) → Type 0
LosesCarry chk len dest = 65535 < borrowed chk len dest % 65536 + borrowed chk len dest / 65536

module _ (t len dest : ℕ) (some_sum : 0 < t) (len_word : len < 65536) (dest_word : dest < 2 ^ 32)
    (borrow : 65535 - ones_sum t < len + dest) where
  abbrev chk : ℕ
  chk = 65535 - ones_sum t

  abbrev right : ℕ
  right = 65535 - ones_sum (t + len + dest % 65536 + dest / 65536)

  lost : LosesCarry chk len dest → patched_check chk len dest ≡ right
  unfolding patched_check
  lost h = ground arith

  kept : patched_check chk len dest ≡ right → LosesCarry chk len dest
  unfolding patched_check
  kept h = ground arith

-- The sum over a header with its check left out.
abbrev pub bare_total : Fields → ℕ
bare_total f = total (words 10 (header f 0 0 0))

header-total :
    (f : Fields) (len dest : ℕ)
    → len < 65536
    → dest < 2 ^ 32
    → total (words 10 (header f len 0 dest)) ≡ bare_total f + len + dest % 65536 + dest / 65536
header-total f len dest h i = omega arith

abbrev pub FieldBytes : Fields → Type 0
FieldBytes f = IsBytes (header f 0 0 0)

byte : (x : ℕ) → x % 256 < 256
byte x = omega arith

header-IsBytes : (f : Fields) (len dest : ℕ) → FieldBytes f → IsBytes (header f len 0 dest)
header-IsBytes f len dest
      (a, (b, (_, (_, (c, (d, (e, (g, (h, (i, (j, (k, (l, (m, (n, (o, _)))))))))))))))) =
    (
      a,
      (
        b,
        (
          omega arith,
          (
            omega arith,
            (
              c,
              (
                d,
                (
                  e,
                  (
                    g,
                    (
                      h,
                      (
                        i,
                        (
                          j,
                          (
                            k,
                            (
                              l,
                              (
                                m,
                                (
                                  n,
                                  (
                                    o,
                                    (omega arith, (omega arith, (omega arith, (omega arith, tt)))),
                                  ),
                                ),
                              ),
                            ),
                          ),
                        ),
                      ),
                    ),
                  ),
                ),
              ),
            ),
          ),
        ),
      ),
    )

pub ip_sum :
    (f : Fields) (len dest : ℕ) (rest : List ℕ)
    → FieldBytes f
    → len < 65536
    → dest < 2 ^ 32
    → ip_checksum (header f len 0 dest ++ rest) 20
      ≡ ones_sum (bare_total f + len + dest % 65536 + dest / 65536)
unfolding ip_checksum
ip_sum f len dest rest v h i =
    ip_checksum-ones_sum (header f len 0 dest) 20 (header-IsBytes f len dest v)
    ∙ ap ones_sum (header-total f len dest h i)

-- A packet with its IPv4 header.
abbrev pub packet_of : (gateway dev : HwAddr) (type : ℕ) → List ℕ → List ℕ → List ℕ
packet_of gateway dev type ip rest = hw_bytes gateway ++ hw_bytes dev ++ le16 type ++ ip ++ rest

-- The test of a receiver on the IPv4 check.
abbrev pub IpPasses : List ℕ → Type 0
IpPasses p = get16 p 24 ≡ not_u16 (ip_checksum (drop mac_bytes (write_at 24 (le16 0) p)) ip_bytes)

-- The length field, the check of a buffer that was filled for the length and the destination 0, and
-- the packet for a new length and destination.
abbrev pub len : ℕ → ℕ
len plen = bswap16 (u16 (plen - mac_bytes))

abbrev pub prefilled_check : Fields → ℕ
prefilled_check f = 65535 - ones_sum (bare_total f)

abbrev pub patched : (gateway dev : HwAddr) (type : ℕ) → Fields → List ℕ → (plen dest : ℕ) → List ℕ
patched gateway dev type f rest plen dest = patch_ip plen dest (
    write_at ip_dest_at (le32 dest)
      (packet_of gateway dev type (header f 0 (prefilled_check f) 0) rest))

module _ (gateway dev : HwAddr) (type : ℕ) (f : Fields) (rest : List ℕ) (plen dest : ℕ) where
  patched-shape :
      patched gateway dev type f rest plen dest
      ≡ packet_of gateway dev type
          (header f (len plen) (patched_check (prefilled_check f) (len plen) dest) dest)
          rest
  unfolding patch_ip write_at
  patched-shape = rw (read16 (prefilled_check f) (omega arith)) refl

module _ (gateway dev : HwAddr) (type : ℕ) (f : Fields) (rest : List ℕ) (plen dest : ℕ)
    (bytes : FieldBytes f) (version : 0 < f.version) (word : dest < 2 ^ 32) where
  abbrev whole_sum : ℕ
  whole_sum = bare_total f + len plen + dest % 65536 + dest / 65536

  shape_iff :
      (c : ℕ)
      → c < 65536
      → IpPasses (packet_of gateway dev type (header f (len plen) c dest) rest)
        ↔ (c ≡ 65535 - ones_sum whole_sum)
  unfolding write_at
  shape_iff c h =
      let sum = ip_sum f (len plen) dest rest bytes (omega arith) word in
      let bound : ones_sum whole_sum ≤ 65535 = ground arith in
      (
        (λ p. sym (read16 c h) ∙ p ∙ omega (arith, sum, bound)),
        (λ e. read16 c h ∙ e ∙ omega (arith, sum, bound)),
      )

  -- Where the destination is so large that the update borrows, which it is for every address that
  -- does not end in two zero bytes, the patched IPv4 check passes the test of a receiver exactly if
  -- the fold of the update loses a carry.
  pub patch_ip-IpPasses :
      prefilled_check f < len plen + dest
      → IpPasses (patched gateway dev type f rest plen dest)
        ↔ LosesCarry (prefilled_check f) (len plen) dest
  unfolding patched_check
  patch_ip-IpPasses borrow =
      let pos : 0 < bare_total f = omega (arith, version) in
      let (to, from) =
        shape_iff (patched_check (prefilled_check f) (len plen) dest) (omega arith) in
      (
        (λ p.
            kept (bare_total f) (len plen) dest pos (omega arith) word borrow
              (to (subst IpPasses (patched-shape gateway dev type f rest plen dest) p))),
        (λ l.
            subst IpPasses (sym (patched-shape gateway dev type f rest plen dest))
              (from (lost (bare_total f) (len plen) dest pos (omega arith) word borrow l))),
      )
