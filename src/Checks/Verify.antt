-- ===== src/Checks/Verify.antt =====
-- src/sctp_check_checksums.c, src/fix_check_ip.c, src/fix_check_ip_sctp.c: the checksums in a
-- packet. The packet is changed in place, also where the result is -1.
use libkpnet.Base.{
  ℕ, ◌+◌, ◌-◌, Bool, true, false, List, drop, take, u16, ltb, bswap16, sub_u16, ◌==◌, if◌then◌else◌,
}
use libkpnet.Wire.{mac_bytes, ip_bytes, cmn_bytes, le16, le32, get16, get32, write_at}
use libkpnet.Crc.{Host, generate_crc32c_on_crc32c, not_u32}
use libkpnet.Checks.{ip_checksum}

-- `~(u16) sum`
abbrev pub not_u16 : ℕ → ℕ
not_u16 x = 65535 - u16 x

-- The CRC32C over the SCTP header at `at` and the first chunk.
abbrev pub sctp_crc : Host → (at : ℕ) → List ℕ → ℕ
sctp_crc h at p =
    generate_crc32c_on_crc32c h
      (take (cmn_bytes + bswap16 (get16 p (at + cmn_bytes + 2))) (drop at p)) 4294967295

-- The part behind the test of the IPv4 check. The result is true for 0 and false for -1.
unfoldable pub check_sctp : Host → List ℕ → Bool × List ℕ
check_sctp h p =
    let check = get32 p 42 in
    let cleared = write_at 42 (le32 0) p in
    if ltb (bswap16 (get16 p 16)) 36
    then (false, p)
    else (if check == not_u32 (sctp_crc h 34 cleared)
        then (true, write_at 42 (le32 check) cleared)
        else (false, cleared))

unfoldable pub sctp_check_checksums : Host → List ℕ → (plen : ℕ) → Bool × List ℕ
sctp_check_checksums h p plen =
    let check = get16 p 24 in
    let cleared = write_at 24 (le16 0) p in
    if ltb plen (mac_bytes + ip_bytes + cmn_bytes)
    then (false, p)
    else (if check == not_u16 (ip_checksum (drop mac_bytes cleared) ip_bytes)
        then check_sctp h (write_at 24 (le16 check) cleared)
        else (false, cleared))

-- `frame->packet` where it is not NULL, from the IPv4 header on. The sum itself is stored, not its
-- complement.
pub fix_check_ip : List ℕ → (opt_len : ℕ) → List ℕ
fix_check_ip ip opt_len =
    let cleared = write_at 10 (le16 0) ip in
    write_at 10 (le16 (u16 (ip_checksum cleared (u16 (ip_bytes + opt_len))))) cleared

abbrev pub max_packet_len : ℕ
max_packet_len = 1516

-- The buffer of the frame from the Ethernet header on, `plen` being `frame->plen`. The CRC32C is
-- taken over the check field as it stands.
unfoldable pub fix_check_ip_sctp : Host → List ℕ → (plen : ℕ) → List ℕ
fix_check_ip_sctp h p plen =
    let len = bswap16 (sub_u16 (max_packet_len - mac_bytes) (u16 plen)) in
    let cleared = write_at 24 (le16 0) (write_at 16 (le16 len) p) in
    let summed =
      write_at 24 (le16 (not_u16 (ip_checksum (drop mac_bytes cleared) ip_bytes))) cleared in
    write_at 42 (le32 (not_u32 (sctp_crc h 34 summed))) summed
