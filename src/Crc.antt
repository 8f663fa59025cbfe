-- ===== src/Crc.antt =====
-- src/generate_crc32c.c, the build for x86-64: the CRC32C of a range of bytes, eight of them at a
-- time while there are eight. The two instructions of the processor are a parameter, and so is the
-- MD5 of the sources' copy of RFC 1321.
pub mod Table
pub mod Instr
mod Tests
use libkpnet.Base.{ℕ, zero, suc, ◌+◌, ◌-◌, ◌*◌, ◌/◌, List, [], ◌∷◌, length, drop, u32}
use libkpnet.Wire.{get32}

-- What the code takes from outside of it: `__builtin_ia32_crc32qi`, `__builtin_ia32_crc32di`, and
-- `MD5Init`, `MD5Update`, `MD5Final` on a whole text.
pub record Host : Type 0 where
  pub crc32qi : ℕ → ℕ → ℕ
  pub crc32di : ℕ → ℕ → ℕ
  pub md5 : List ℕ → List ℕ

abbrev pub get64 : List ℕ → ℕ
get64 b = get32 b 0 + 4294967296 * get32 b 4

-- The first loop, over `n` words.
unfoldable pub crc_words : Host → (n : ℕ) → List ℕ → ℕ → ℕ
crc_words h zero bytes crc = crc
crc_words h (suc n) bytes crc = crc_words h n (drop 8 bytes) (h.crc32di crc (get64 bytes))

-- The second loop, over the bytes that are left.
unfoldable pub crc_bytes : Host → List ℕ → ℕ → ℕ
crc_bytes h [] crc = crc
crc_bytes h (x ∷ bytes) crc = crc_bytes h bytes (h.crc32qi crc x)

unfoldable pub generate_crc32c_on_crc32c : Host → List ℕ → ℕ → ℕ
generate_crc32c_on_crc32c h bytes crc =
    let n = length bytes / 8 in crc_bytes h (drop (8 * n) bytes) (crc_words h n bytes crc)

-- `~(u32) crc`
abbrev pub not_u32 : ℕ → ℕ
not_u32 x = 4294967295 - u32 x

unfoldable pub generate_crc32c : Host → List ℕ → ℕ
generate_crc32c h bytes = not_u32 (generate_crc32c_on_crc32c h bytes 4294967295)
