-- ===== src/Wire.antt =====
-- Packets as lists of bytes: reads and writes of the packed structures of include/if_packet.h,
-- include/mac.h and include/sctp.h at their offsets, on a little-endian host. A pointer into a
-- packet is the list from there on.
use libkpnet.Base.{
  ℕ, zero, suc, ◌+◌, ◌*◌, ◌/◌, ◌%◌, ◌^◌, ◌≤◌, ◌<◌, ◌≡◌, refl, ap, arith, List, [], ◌∷◌, length,
  get_or, take, drop,
}

abbrev pub mac_bytes : ℕ
mac_bytes = 14

abbrev pub ip_bytes : ℕ
ip_bytes = 20

abbrev pub cmn_bytes : ℕ
cmn_bytes = 12

abbrev pub fld_bytes : ℕ
fld_bytes = 4

-- `u8 [6]`
pub record HwAddr : Type 0 where
  pub a0 : ℕ
  pub a1 : ℕ
  pub a2 : ℕ
  pub a3 : ℕ
  pub a4 : ℕ
  pub a5 : ℕ

abbrev pub hw_bytes : HwAddr → List ℕ
hw_bytes a = a.a0 ∷ a.a1 ∷ a.a2 ∷ a.a3 ∷ a.a4 ∷ a.a5 ∷ []

-- The bytes of a `u16` and of a `u32` in memory.
abbrev pub le16 : ℕ → List ℕ
le16 x = x % 256 ∷ x / 256 % 256 ∷ []

abbrev pub le32 : ℕ → List ℕ
le32 x = x % 256 ∷ x / 256 % 256 ∷ x / 65536 % 256 ∷ x / 16777216 % 256 ∷ []

abbrev pub get8 : List ℕ → ℕ → ℕ
get8 b o = get_or b o 0

abbrev pub get16 : List ℕ → ℕ → ℕ
get16 b o = get_or b o 0 + 256 * get_or b (o + 1) 0

abbrev pub get32 : List ℕ → ℕ → ℕ
get32 b o =
    get_or b o 0
    + 256 * get_or b (o + 1) 0
    + 65536 * get_or b (o + 2) 0
    + 16777216 * get_or b (o + 3) 0

-- A written number is read back.
pub read16 : (v : ℕ) → v < 65536 → v % 256 + 256 * (v / 256 % 256) ≡ v
read16 v h = omega arith

pub read32 :
    (v : ℕ)
    → v < 2 ^ 32
    → v % 256 + 256 * (v / 256 % 256) + 65536 * (v / 65536 % 256) + 16777216 * (v / 16777216 % 256)
      ≡ v
read32 v h = omega arith

-- `memcpy` onto the bytes of a buffer, and at an offset into it. What would fall behind the end
-- of the buffer is dropped.
abbrev pub overwrite : List ℕ → List ℕ → List ℕ
overwrite [] buf = buf
overwrite (x ∷ xs) [] = []
overwrite (x ∷ xs) (b ∷ buf) = x ∷ overwrite xs buf

unfoldable pub write_at : ℕ → List ℕ → List ℕ → List ℕ
write_at zero xs buf = overwrite xs buf
write_at (suc o) xs [] = []
write_at (suc o) xs (b ∷ buf) = b ∷ write_at o xs buf

pub length-overwrite : (xs buf : List ℕ) → length (overwrite xs buf) ≡ length buf
length-overwrite [] buf = refl
length-overwrite (x ∷ xs) [] = refl
length-overwrite (x ∷ xs) (b ∷ buf) = ap suc (length-overwrite xs buf)

pub length-write_at : (o : ℕ) (xs buf : List ℕ) → length (write_at o xs buf) ≡ length buf
unfolding write_at
length-write_at zero xs buf = length-overwrite xs buf
length-write_at (suc o) xs [] = refl
length-write_at (suc o) xs (b ∷ buf) = ap suc (length-write_at o xs buf)

take-overwrite :
    (xs buf : List ℕ) → length xs ≤ length buf → take (length xs) (overwrite xs buf) ≡ xs
take-overwrite [] buf h = refl
take-overwrite (x ∷ xs) [] h = absurd (omega arith)
take-overwrite (x ∷ xs) (b ∷ buf) h = ap (λ t. x ∷ t) (take-overwrite xs buf (omega arith))

-- What was written is read back.
pub take-drop-write_at :
    (o : ℕ) (xs buf : List ℕ)
    → o + length xs ≤ length buf
    → take (length xs) (drop o (write_at o xs buf)) ≡ xs
unfolding write_at
take-drop-write_at zero xs buf h = take-overwrite xs buf (omega arith)
take-drop-write_at (suc o) xs [] h = absurd (omega arith)
take-drop-write_at (suc o) xs (b ∷ buf) h = take-drop-write_at o xs buf (omega arith)

drop-overwrite : (p : ℕ) (xs buf : List ℕ) → length xs ≤ p → drop p (overwrite xs buf) ≡ drop p buf
drop-overwrite p [] buf h = refl
drop-overwrite zero (x ∷ xs) buf h = absurd (omega arith)
drop-overwrite (suc p) (x ∷ xs) [] h = refl
drop-overwrite (suc p) (x ∷ xs) (b ∷ buf) h = drop-overwrite p xs buf (omega arith)

-- A write does not reach the bytes behind it.
pub drop-write_at :
    (p o : ℕ) (xs buf : List ℕ) → o + length xs ≤ p → drop p (write_at o xs buf) ≡ drop p buf
unfolding write_at
drop-write_at p zero xs buf h = drop-overwrite p xs buf (omega arith)
drop-write_at zero (suc o) xs buf h = absurd (omega arith)
drop-write_at (suc p) (suc o) xs [] h = refl
drop-write_at (suc p) (suc o) xs (b ∷ buf) h = drop-write_at p o xs buf (omega arith)
