-- ===== src/Raw/Prefill/Checks.antt =====
-- The IPv4 checks of the prefilled headers.
use libkpnet.Base.{
  ℕ, ◌+◌, ◌≤◌, ◌≡◌, ◌≢◌, refl, arith, false, some, List, ◌∷◌, ◌++◌, u16, sub_u32, bswap16, le→ltb,
  ne→==,
}
use libkpnet.Wire.{le16, le32, write_at, read16}
use libkpnet.Crc.{Host}
use libkpnet.Checks.{words, ip_checksum}
use Prim.{tt}
use libkpnet.Checks.Ones.{IsBytes, total, ones_sum_bound, ip_checksum-ones_sum}
use libkpnet.Checks.Verify.{not_u16, sctp_check_checksums}
use libkpnet.Sctp.{Ulp}
use libkpnet.Sctp.Packet.{Packet, eth_send_sctp}
use libkpnet.Sctp.Build.Patched.{IpPasses}
use libkpnet.Xdp.{Xdp}
use libkpnet.Raw.{Meta}
use libkpnet.Raw.Prefill.{prefill_mac_ip_sctp, prefill_sctp_mac_ip}

-- The prefilled buffer passes a receiver's test of the IPv4 check, for the length 0.
pub prefill_mac_ip_sctp-IpPasses :
    (indent : ℕ) (p : List ℕ) (m : Meta)
    → (q : List ℕ) × (prefill_mac_ip_sctp indent (some p) (some m) ≡ some (q, 46)) × IpPasses q
unfolding prefill_mac_ip_sctp ip_checksum write_at
prefill_mac_ip_sctp-IpPasses indent p m = (_, refl, read16 _ (omega arith))

-- The IPv4 header of what the client sends, for a packet of `len` bytes behind Ethernet.
abbrev pub sent_ip : (indent len : ℕ) → Ulp → List ℕ
sent_ip indent len ulp =
    69 ∷ 2 ∷ le16 (bswap16 len)
    ++ le16 indent
    ++ le16 0
    ++ 141 ∷ 132 ∷ le16 0
    ++ le32 ulp.src_ip
    ++ le32 ulp.dst_ip

sent_ip-IsBytes : (indent len : ℕ) (ulp : Ulp) → IsBytes (sent_ip indent len ulp)
sent_ip-IsBytes indent len ulp = (
  omega arith,
  (
    omega arith,
    (
      omega arith,
      (
        omega arith,
        (
          omega arith,
          (
            omega arith,
            (
              omega arith,
              (
                omega arith,
                (
                  omega arith,
                  (
                    omega arith,
                    (
                      omega arith,
                      (
                        omega arith,
                        (
                          omega arith,
                          (
                            omega arith,
                            (
                              omega arith,
                              (
                                omega arith,
                                (omega arith, (omega arith, (omega arith, (omega arith, tt)))),
                              ),
                            ),
                          ),
                        ),
                      ),
                    ),
                  ),
                ),
              ),
            ),
          ),
        ),
      ),
    ),
  ),
)

sent_ip-word : (indent len : ℕ) (ulp : Ulp) → ip_checksum (sent_ip indent len ulp) 20 ≤ 65535
sent_ip-word indent len ulp = omega (
  arith,
  ip_checksum-ones_sum (sent_ip indent len ulp) 20 (sent_ip-IsBytes indent len ulp),
  ones_sum_bound (total (words 10 (sent_ip indent len ulp))),
)

zero_check : (s : ℕ) → s ≤ 65535 → s ≢ 65535 → 0 ≢ not_u16 s
zero_check s h ne e = ne (omega (arith, e))

-- The packet of a new association goes out with the IPv4 check 0, since no code fills it in: where
-- the words of its header do not happen to add up to 65535, a receiver refuses it.
pub eth_send_sctp-refused :
    (h : Host) (fuel : ℕ) (kernel : Xdp → Xdp) (indent gateway dev plen : ℕ) (ulp : Ulp)
    (p : Packet) (x : Xdp) (chunks : List ℕ)
    → let sent = (eth_send_sctp fuel kernel (prefill_sctp_mac_ip indent ulp gateway dev p) x).0 in
      46 ≤ plen
      → ip_checksum (sent_ip indent (u16 (sub_u32 p.mtu p.remain_plen + 20 + 12)) ulp) 20 ≢ 65535
      → (sctp_check_checksums h (sent.headers ++ chunks) plen).0 ≡ false
unfolding eth_send_sctp prefill_sctp_mac_ip sctp_check_checksums ip_checksum write_at
eth_send_sctp-refused h fuel kernel indent gateway dev plen ulp p x chunks enough odd =
    let sum = ip_checksum (sent_ip indent (u16 (sub_u32 p.mtu p.remain_plen + 20 + 12)) ulp) 20 in
    rw
      (
        le→ltb plen 46 enough,
        ne→== 0 (not_u16 sum) (zero_check sum (sent_ip-word indent _ ulp) odd),
      )
      refl
