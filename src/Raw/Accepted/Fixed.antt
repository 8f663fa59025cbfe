-- ===== src/Raw/Accepted/Fixed.antt =====
-- What `fix_check_ip_sctp` makes of a packet passes the checks of a receiver.
use libkpnet.Base.{ℕ, ◌+◌, ◌≡◌, refl, ap, arith, true, List, ◌++◌, length, u16, sub_u16}
use libkpnet.Wire.{write_at}
use libkpnet.Crc.{Host, not_u32}
use libkpnet.Checks.{ip_checksum}
use libkpnet.Checks.Verify.{sctp_crc, sctp_check_checksums, fix_check_ip_sctp}
use libkpnet.Raw.{Meta}
use libkpnet.Raw.Accepted.{
  sealed, chunk_hdr, ip_check, crc_same, verified, not_u16-word, not_u32-word,
}

module _ (h : Host) (m : Meta) (tag indent type n len check plen : ℕ) (body tail : List ℕ)
    (size : n ≡ length body + 4) (left : plen + n ≡ 1470) where
  abbrev chunk : List ℕ
  chunk = chunk_hdr type n ++ body ++ tail

  abbrev summed : List ℕ
  summed = sealed m tag indent (n + 32) (ip_check m indent n) 0 chunk

  fixed :
      fix_check_ip_sctp h (sealed m tag indent len check 0 chunk) plen
      ≡ sealed m tag indent (n + 32) (ip_check m indent n) (not_u32 (sctp_crc h 34 summed)) chunk
  unfolding fix_check_ip_sctp write_at ip_checksum
  fixed = let e : sub_u16 1502 (u16 plen) ≡ n + 32 = omega (arith, left) in rw e refl

  -- A packet with one chunk, whose CRC32C is 0 and whose frame has as many bytes left as its length
  -- says, passes the receiver's checks after `fix_check_ip_sctp`, whatever its length and its IPv4
  -- check were.
  pub fix_check_ip_sctp-verified :
      let p = fix_check_ip_sctp h (sealed m tag indent len check 0 chunk) plen in
      sctp_check_checksums h p (n + 46) ≡ (true, p)
  fix_check_ip_sctp-verified =
      let c = ip_check m indent n in
      let same =
        crc_same h m tag indent type n c _ body tail size (omega (arith, left)) (not_u16-word _)
          (not_u32-word _) refl refl in
      rw fixed (
        verified h m tag indent type n c (not_u32 (sctp_crc h 34 summed)) body tail size
          (omega (arith, left)) (not_u16-word _) (not_u32-word _) refl (ap not_u32 same))
