-- ===== src/Raw/Prefill/Init.antt =====
-- src/build_prefilled_sctp_init_hdr.c: the INIT in a prefilled buffer, and what it does to the check
-- of the IPv4 header.
use Prim.{tt}
use libkpnet.Base.{
  ℕ, ◌+◌, ◌-◌, ◌*◌, ◌/◌, ◌%◌, ◌^◌, ◌≤◌, ◌<◌, ◌≡◌, ◌↔◌, refl, ap, subst, arith, Option, none, some,
  List, [], ◌++◌, take, drop, u16, sub_u16, bswap16,
}
use libkpnet.Wire.{mac_bytes, ip_bytes, le16, le32, get16, write_at, read16, hw_bytes}
use libkpnet.Crc.{Host, generate_crc32c}
use libkpnet.Checks.{ip_checksum}
use libkpnet.Checks.Ones.{ones_sum, ones_sum_bound}
use libkpnet.Checks.Verify.{not_u16}
use libkpnet.Sctp.{type_init}
use libkpnet.Sctp.Build.Patched.{Fields, FieldBytes, header, bare_total, ip_sum, IpPasses}
use libkpnet.Raw.{
  Meta, RawDraws, Built, with_fld, proto_sctp, ethertype_ip, build_sctp_fld_hdr_raw,
  build_sctp_init_hdr_raw,
}
use libkpnet.Raw.Prefill.{prefilled_ip, prefill_mac_ip_sctp}

-- `ip->len` and `ip->check`, whose test for more than 16 bits never holds; `new` is the new length.
abbrev pub patch_len : (new : ℕ) → List ℕ → List ℕ
patch_len new b =
    write_at 24 (le16 (u16 (get16 b 24 + 65536 + get16 b 16 - new))) (write_at 16 (le16 new) b)

abbrev pub patch_crc : Host → (plen : ℕ) → List ℕ → List ℕ
patch_crc h plen b =
    let c = write_at 42 (le32 0) b in
    write_at 42 (le32 (generate_crc32c h (take (plen - 34) (drop 34 c)))) c

-- The chunk behind the first 46 bytes, then the lengths and the checks.
abbrev pub finished : Host → (pck_len : ℕ) → List ℕ → Built → Option (List ℕ × ℕ)
finished h pck_len p (none, n) = none
finished h pck_len p (some b, n) =
    let plen = u16 (n + pck_len) in
    some (patch_crc h plen (patch_len (bswap16 (sub_u16 plen mac_bytes)) (take 46 p ++ b)), plen)

abbrev pub init_built :
    Host → RawDraws → (plen : ℕ) → Option (List ℕ) → Option Meta → Option (List ℕ × ℕ)
init_built h d plen none state = none
init_built h d plen (some p) none = none
init_built h d plen (some p) (some m) = finished h plen p (
    with_fld type_init
      (build_sctp_init_hdr_raw d.tag m.src_arwnd m.src_os m.src_mis d.tsn (some (drop 66 p), 0)))

-- The packet and `frame->plen`, for `frame->prefill`, `frame->plen` and `frame->state`.
unfoldable pub build_prefilled_sctp_init_hdr :
    Host → RawDraws → (plen : ℕ) → Option (List ℕ) → Option Meta → Option (List ℕ × ℕ)
build_prefilled_sctp_init_hdr h d plen prefill state = init_built h d plen prefill state

-- The fields of the prefilled IPv4 header.
abbrev pub fields_of : (indent src : ℕ) → Fields
fields_of indent src = record {
  version = 69;
  tos = bswap16 2 % 256 % 256;
  id0 = indent % 256;
  id1 = indent / 256 % 256;
  off0 = 0;
  off1 = 0;
  ttl = 228;
  proto = proto_sctp;
  src0 = src % 256;
  src1 = src / 256 % 256;
  src2 = src / 65536 % 256;
  src3 = src / 16777216 % 256;
}

-- The check of the prefilled header.
abbrev pub check_of : (indent : ℕ) → Meta → ℕ
check_of indent m =
    not_u16 (ip_checksum (prefilled_ip (bswap16 2) indent 228 0 m.src_ip m.dst_ip) ip_bytes)

module _ (t len : ℕ) (pos : 0 < t) (word : len < 65536) where
  right_iff :
      (u16 (65535 - ones_sum t + 65536 + 0 - len) ≡ 65535 - ones_sum (t + len))
      ↔ (len ≤ 65535 - ones_sum t)
  right_iff = ((λ e. ground arith), (λ h. ground arith))

-- The result of both calls on a new frame, where the second call adds the chunk.
abbrev pub both :
    Host → RawDraws → (indent : ℕ) → List ℕ → Meta → Option (List ℕ × ℕ) → Option (List ℕ × ℕ)
both h d indent p m none = none
both h d indent p m (some (q, plen)) = build_prefilled_sctp_init_hdr h d plen (some q) (some m)

fields_of-FieldBytes : (indent src : ℕ) → FieldBytes (fields_of indent src)
fields_of-FieldBytes indent src = (
  omega arith,
  (
    omega arith,
    (
      omega arith,
      (
        omega arith,
        (
          omega arith,
          (
            omega arith,
            (
              omega arith,
              (
                omega arith,
                (
                  omega arith,
                  (
                    omega arith,
                    (
                      omega arith,
                      (
                        omega arith,
                        (
                          omega arith,
                          (
                            omega arith,
                            (
                              omega arith,
                              (
                                omega arith,
                                (omega arith, (omega arith, (omega arith, (omega arith, tt)))),
                              ),
                            ),
                          ),
                        ),
                      ),
                    ),
                  ),
                ),
              ),
            ),
          ),
        ),
      ),
    ),
  ),
)

abbrev init_len : ℕ
init_len = bswap16 52

-- The packet with its length and a check.
abbrev shape : (indent : ℕ) → Meta → (check : ℕ) → List ℕ → List ℕ
shape indent m check rest =
    hw_bytes m.gateway
    ++ hw_bytes m.dev
    ++ le16 (bswap16 ethertype_ip)
    ++ header (fields_of indent m.src_ip) init_len check m.dst_ip
    ++ rest

abbrev new_check : (check : ℕ) → ℕ
new_check check = u16 (check + 65536 + 0 - init_len)

shape_iff :
    (indent : ℕ) (m : Meta) (rest : List ℕ)
    → m.dst_ip < 2 ^ 32
    → IpPasses (shape indent m (new_check (check_of indent m)) rest)
      ↔ (init_len ≤ check_of indent m)
unfolding write_at
shape_iff indent m rest word =
    let c = check_of indent m in
    let f = fields_of indent m.src_ip in
    let bytes = fields_of-FieldBytes indent m.src_ip in
    let t : ℕ = bare_total f + 0 + m.dst_ip % 65536 + m.dst_ip / 65536 in
    let pos : 0 < t = omega arith in
    let old = ip_sum f 0 m.dst_ip [] bytes (omega arith) word in
    let new = ip_sum f init_len m.dst_ip rest bytes (omega arith) word in
    let same : ones_sum (bare_total f + init_len + m.dst_ip % 65536 + m.dst_ip / 65536)
        ≡ ones_sum (t + init_len) =
      ap ones_sum (omega arith) in
    let bound = ones_sum_bound (t + init_len) in
    let before : c ≡ 65535 - ones_sum t = omega (arith, old, ones_sum_bound t) in
    let again = read16 (new_check c) (omega arith) in
    let (to, from) = right_iff t init_len pos (omega arith) in
    (
      (λ e. omega (arith, before, to (omega (arith, before, again, e, new, same, bound)))),
      (λ h. omega (arith, before, again, new, same, bound, from (omega (arith, before, h)))),
    )

module _ (h : Host) (d : RawDraws) (indent : ℕ) (p : List ℕ) (m : Meta) where
  -- The check of the buffer as it is read.
  abbrev read : ℕ
  read = check_of indent m % 256 + 256 * (check_of indent m / 256 % 256)

  -- The packet has the new check, whatever follows the IPv4 header.
  abbrev BuiltWith : ℕ → Type 0
  BuiltWith check =
      (rest : List ℕ) × (both h d indent p m (prefill_mac_ip_sctp indent (some p) (some m))
        ≡ some (shape indent m (new_check check) rest, 66))

  built_shape : BuiltWith read
  unfolding prefill_mac_ip_sctp build_prefilled_sctp_init_hdr build_sctp_fld_hdr_raw
      build_sctp_init_hdr_raw write_at
  built_shape = (_, refl)

  -- The INIT that is put into a buffer of `prefill_mac_ip_sctp` passes a receiver's test of the IPv4
  -- check exactly if the check of the buffer is at least the new length in the order of the bytes on
  -- the wire, as if no borrow were needed.
  pub build_prefilled_sctp_init_hdr-IpPasses :
      m.dst_ip < 2 ^ 32
      → (r : List ℕ) × (both h d indent p m (prefill_mac_ip_sctp indent (some p) (some m))
          ≡ some (r, 66))
        × (IpPasses r ↔ (init_len ≤ check_of indent m))
  unfolding write_at
  build_prefilled_sctp_init_hdr-IpPasses word =
      let c = check_of indent m in
      let (rest, run) = subst BuiltWith (read16 c (omega arith)) built_shape in
      (shape indent m (new_check c) rest, run, shape_iff indent m rest word)
