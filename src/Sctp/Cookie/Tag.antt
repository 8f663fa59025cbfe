-- ===== src/Sctp/Cookie/Tag.antt =====
-- The loop over the tags finds every difference, and the digest of `hmac_md5` has 16 bytes.
use libkpnet.Base.{
  ℕ, zero, suc, ◌+◌, ◌≤◌, ◌≡◌, refl, ap, ap₂, ◌∙◌, arith, List, [], ◌∷◌, length, get_or, take, drop,
  bit_xor, bit_or, bit_xor_self, bit_xor-zero, bit_or-zero, bit_or-zeros,
}
use libkpnet.Crc.{Host}
use libkpnet.Sctp.Cookie.{hmac_md5, tag_diff, hmac_md5_key_len}

-- Nothing was found so far, and the next `n` bytes are the same.
pub tag_diff-zero :
    (n : ℕ) (digest tag : List ℕ) (res : ℕ)
    → n ≤ length digest
    → n ≤ length tag
    → tag_diff n digest tag res ≡ 0
    → (res ≡ 0) × (take n digest ≡ take n tag)
unfolding tag_diff
tag_diff-zero zero digest tag res p q e = (e, refl)
tag_diff-zero (suc n) [] tag res p q e = absurd (omega arith)
tag_diff-zero (suc n) (x ∷ digest) [] res p q e = absurd (omega arith)
tag_diff-zero (suc n) (x ∷ digest) (y ∷ tag) res p q e =
    let (r, same) = tag_diff-zero n digest tag _ (omega arith) (omega arith) e in
    let (z, w) = bit_or-zero (res + bit_xor x y) res (bit_xor x y) (omega arith) (omega arith) r in
    (z, ap₂ (λ u v. u ∷ v) (bit_xor-zero (x + y) x y (omega arith) (omega arith) w) same)

pub tag_diff-same : (n : ℕ) (tag : List ℕ) → tag_diff n tag tag 0 ≡ 0
unfolding tag_diff
tag_diff-same zero tag = refl
tag_diff-same (suc n) tag =
    ap (λ r. tag_diff n (drop 1 tag) (drop 1 tag) (bit_or 0 r))
      (bit_xor_self (get_or tag 0 0) _ (omega arith))
    ∙ ap (tag_diff n (drop 1 tag) (drop 1 tag)) bit_or-zeros
    ∙ tag_diff-same n (drop 1 tag)

-- Only the first `n` bytes count.
pub tag_diff-take :
    (n : ℕ) (digest tag : List ℕ) (res : ℕ)
    → tag_diff n digest (take n tag) res ≡ tag_diff n digest tag res
unfolding tag_diff
tag_diff-take zero digest tag res = refl
tag_diff-take (suc n) digest [] res = refl
tag_diff-take (suc n) digest (y ∷ tag) res = tag_diff-take n (drop 1 digest) tag _

-- RFC 1321: a digest has 16 bytes.
abbrev pub IsMd5 : Host → Type 0
IsMd5 h = (text : List ℕ) → length (h.md5 text) ≡ hmac_md5_key_len

pub length-hmac_md5 :
    (h : Host) (text key : List ℕ) → IsMd5 h → length (hmac_md5 h text key) ≡ hmac_md5_key_len
unfolding hmac_md5
length-hmac_md5 h text key v = v _
