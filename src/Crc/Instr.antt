-- ===== src/Crc/Instr.antt =====
-- The build for x86-64 computes what the portable one does, where the two instructions of the
-- processor do what their manual says: they take 8 or 64 bits into a remainder of 32 bits.
use Prim.{tt}
use libkpnet.Base.{
  ℕ, zero, suc, ◌+◌, ◌*◌, ◌/◌, ◌%◌, ◌^◌, ◌≤◌, ◌<◌, ◌≡◌, refl, sym, ap, ap₂, ◌∙◌, subst, arith, List,
  [], ◌∷◌, length, drop, bit_xor, ◌==◌, Bool-cases, inl, inr, bit_xor-half, bit_xor-low,
  bit_xor_comm, bit_xor_assoc, bit_xor_zero, shifted, bit_xor-shifted, bit_xor-below,
}
use libkpnet.Crc.{
  Host, get64, crc_words, crc_bytes, generate_crc32c_on_crc32c, generate_crc32c, not_u32,
}
use libkpnet.Checks.Ones.{IsBytes}
use libkpnet.Crc.Table.{generate_crc32c_table}
use libkpnet.Crc.Table.Bitwise.{
  polynomial, bit_step, bit_steps, bitwise_loop, generate_crc32c_table-bitwise,
}

-- The division of `n` bits.
pub divide : (n c : ℕ) → ℕ
divide zero c = c
divide (suc n) c = divide n (bit_step c)

divide-bit_steps : (n c : ℕ) → divide n c ≡ bit_steps n c
unfolding divide
divide-bit_steps zero c = refl
divide-bit_steps (suc n) c = divide-bit_steps n (bit_step c)

divide-add : (m n c : ℕ) → divide (m + n) c ≡ divide n (divide m c)
unfolding divide
divide-add zero n c = ap (λ k. divide k c) {x = 0 + n} {y = n} (omega arith)
divide-add (suc m) n c =
    ap (λ k. divide k c) {x = suc m + n} {y = suc (m + n)} (omega arith)
    ∙ divide-add m n (bit_step c)

-- What the manual says of the two instructions, for a remainder of 32 bits.
pub record IsCrc32 (h : Host) : Type 0 where
  pub byte : (c d : ℕ) → c < 2 ^ 32 → d < 256 → h.crc32qi c d ≡ divide 8 (bit_xor c d)
  pub word : (c q : ℕ) → c < 2 ^ 32 → q < 2 ^ 64 → h.crc32di c q ≡ divide 64 (bit_xor c q)

-- The upper digits only move down.
bit_step-shift : (y z : ℕ) → bit_step (bit_xor (2 * y) z) ≡ bit_xor y (bit_step z)
bit_step-shift y z =
    let low : bit_xor (2 * y) z % 2 ≡ z % 2 = omega (arith, bit_xor-low (2 * y) z) in
    let half : bit_xor (2 * y) z / 2 ≡ bit_xor y (z / 2) =
      bit_xor-half (2 * y) z ∙ ap (λ t. bit_xor t (z / 2)) (omega arith) in
    rw (low, half)
      (elim (Bool-cases (z % 2 == 1)) [
        | inl e ↦ rw e (bit_xor_assoc y (z / 2) polynomial)
        | inr e ↦ rw e refl
      ])

divide-shift : (n y z : ℕ) → divide n (bit_xor (shifted n y) z) ≡ bit_xor y (divide n z)
unfolding divide
divide-shift zero y z = refl
divide-shift (suc n) y z =
    ap (divide n) (bit_step-shift (shifted n y) z) ∙ divide-shift n y (bit_step z)

below-32 : (n : ℕ) → n < 2 ^ 32 → n < shifted 32 1
below-32 n h = h

bit_step-below : (c : ℕ) → c < 2 ^ 32 → bit_step c < 2 ^ 32
bit_step-below c h = elim (Bool-cases (c % 2 == 1)) [
  | inl e ↦ rw e (bit_xor-below 32 (c / 2) polynomial (omega arith) (omega arith))
  | inr e ↦ rw e (omega arith)
]

divide-below : (n c : ℕ) → c < 2 ^ 32 → divide n c < 2 ^ 32
unfolding divide
divide-below zero c h = h
divide-below (suc n) c h = divide-below n (bit_step c) (bit_step-below c h)

-- A byte more, as `bitwise_loop` takes it.
take_byte : (c d : ℕ) → ℕ
take_byte c d = bit_xor (c / 256) (bit_steps 8 (bit_xor c d % 256))

split_byte : (x : ℕ) → bit_xor (shifted 8 (x / 256)) (x % 256) ≡ x
split_byte x = bit_xor-shifted 8 (x / 256) (x % 256) (omega arith) ∙ omega arith

high_bytes : (c d : ℕ) → d < 256 → bit_xor c d / 256 ≡ c / 256
high_bytes c d h =
    let low = bit_xor-below 8 (c % 256) d (omega arith) h in
    let all : bit_xor c d ≡ shifted 8 (c / 256) + bit_xor (c % 256) d =
      ap (λ t. bit_xor t d) (sym (split_byte c))
      ∙ bit_xor_assoc (shifted 8 (c / 256)) (c % 256) d
      ∙ bit_xor-shifted 8 (c / 256) (bit_xor (c % 256) d) low in
    omega (arith, all, low)

divide-take_byte : (c d : ℕ) → d < 256 → divide 8 (bit_xor c d) ≡ take_byte c d
unfolding take_byte
divide-take_byte c d h =
    let x = bit_xor c d in
    ap (divide 8) (sym (split_byte x))
    ∙ divide-shift 8 (x / 256) (x % 256)
    ∙ ap₂ bit_xor (high_bytes c d h) (divide-bit_steps 8 (x % 256))

take_byte-below : (c d : ℕ) → c < 2 ^ 32 → d < 256 → take_byte c d < 2 ^ 32
take_byte-below c d h i =
    subst (λ x. x < 2 ^ 32) (divide-take_byte c d i)
      (divide-below 8 (bit_xor c d) (bit_xor-below 32 c d h (omega arith)))

abbrev fold_bytes : List ℕ → ℕ → ℕ
fold_bytes [] c = c
fold_bytes (d ∷ ds) c = fold_bytes ds (take_byte c d)

-- The number of which the bytes are the digits, the lowest first.
abbrev value : List ℕ → ℕ
value [] = 0
value (d ∷ ds) = d + 256 * value ds

abbrev bits : List ℕ → ℕ
bits [] = 0
bits (d ∷ ds) = 8 + bits ds

-- Many bytes at once are the bytes one after the other.
divide-fold_bytes :
    (ds : List ℕ) (c : ℕ) → IsBytes ds → divide (bits ds) (bit_xor c (value ds)) ≡ fold_bytes ds c
unfolding divide
divide-fold_bytes [] c h = bit_xor_zero c
divide-fold_bytes (d ∷ ds) c (h, hs) =
    let v = value ds in
    let join : d + 256 * v ≡ bit_xor (shifted 8 v) d = omega (arith, bit_xor-shifted 8 v d h) in
    let swap : bit_xor c (bit_xor (shifted 8 v) d) ≡ bit_xor (shifted 8 v) (bit_xor c d) =
      sym (bit_xor_assoc c (shifted 8 v) d)
      ∙ ap (λ t. bit_xor t d) (bit_xor_comm c (shifted 8 v))
      ∙ bit_xor_assoc (shifted 8 v) c d in
    divide-add 8 (bits ds) (bit_xor c (d + 256 * v))
    ∙ ap (λ t. divide (bits ds) (divide 8 t)) (ap (bit_xor c) join ∙ swap)
    ∙ ap (divide (bits ds)) (
        divide-shift 8 v (bit_xor c d)
        ∙ bit_xor_comm v (divide 8 (bit_xor c d))
        ∙ ap (λ t. bit_xor t v) (divide-take_byte c d h))
    ∙ divide-fold_bytes ds (take_byte c d) hs

fold_bytes-below : (ds : List ℕ) (c : ℕ) → IsBytes ds → c < 2 ^ 32 → fold_bytes ds c < 2 ^ 32
fold_bytes-below [] c h i = i
fold_bytes-below (d ∷ ds) c (h, hs) i =
    fold_bytes-below ds (take_byte c d) hs (take_byte-below c d i h)

fold_bytes-bitwise_loop : (ds : List ℕ) (c : ℕ) → fold_bytes ds c ≡ bitwise_loop ds c
unfolding bitwise_loop take_byte
fold_bytes-bitwise_loop [] c = refl
fold_bytes-bitwise_loop (d ∷ ds) c = fold_bytes-bitwise_loop ds _

module _ {h : Host} (v : IsCrc32 h) where
  crc_bytes-fold_bytes :
      (ds : List ℕ) (c : ℕ) → IsBytes ds → c < 2 ^ 32 → crc_bytes h ds c ≡ fold_bytes ds c
  unfolding crc_bytes
  crc_bytes-fold_bytes [] c b i = refl
  crc_bytes-fold_bytes (d ∷ ds) c (b, bs) i =
      ap (crc_bytes h ds) (v.byte c d i b ∙ divide-take_byte c d b)
      ∙ crc_bytes-fold_bytes ds (take_byte c d) bs (take_byte-below c d i b)

  word_at_once :
      (a₀ a₁ a₂ a₃ a₄ a₅ a₆ a₇ c : ℕ) (ds : List ℕ)
      → IsBytes (a₀ ∷ a₁ ∷ a₂ ∷ a₃ ∷ a₄ ∷ a₅ ∷ a₆ ∷ a₇ ∷ [])
      → c < 2 ^ 32
      → h.crc32di c (get64 (a₀ ∷ a₁ ∷ a₂ ∷ a₃ ∷ a₄ ∷ a₅ ∷ a₆ ∷ a₇ ∷ ds))
        ≡ fold_bytes (a₀ ∷ a₁ ∷ a₂ ∷ a₃ ∷ a₄ ∷ a₅ ∷ a₆ ∷ a₇ ∷ []) c
  word_at_once a₀ a₁ a₂ a₃ a₄ a₅ a₆ a₇ c ds b i =
      let w : List ℕ = a₀ ∷ a₁ ∷ a₂ ∷ a₃ ∷ a₄ ∷ a₅ ∷ a₆ ∷ a₇ ∷ [] in
      let (b₀, (b₁, (b₂, (b₃, (b₄, (b₅, (b₆, (b₇, _)))))))) = b in
      v.word c (get64 (a₀ ∷ a₁ ∷ a₂ ∷ a₃ ∷ a₄ ∷ a₅ ∷ a₆ ∷ a₇ ∷ ds)) i
        (omega (arith, b₀, b₁, b₂, b₃, b₄, b₅, b₆, b₇))
      ∙ ap (λ q. divide 64 (bit_xor c q)) {y = value w} (omega arith)
      ∙ divide-fold_bytes w c b

  words-fold_bytes :
      (n : ℕ) (bytes : List ℕ) (c : ℕ)
      → 8 * n ≤ length bytes
      → IsBytes bytes
      → c < 2 ^ 32
      → crc_bytes h (drop (8 * n) bytes) (crc_words h n bytes c) ≡ fold_bytes bytes c
  unfolding crc_words
  words-fold_bytes zero bytes c room b i =
      ap (λ k. crc_bytes h (drop k bytes) c) {x = 8 * 0} {y = 0} (omega arith)
      ∙ crc_bytes-fold_bytes bytes c b i
  words-fold_bytes (suc n) ([]) c room b i = absurd (omega arith)
  words-fold_bytes (suc n) (a₀ ∷ []) c room b i = absurd (omega arith)
  words-fold_bytes (suc n) (a₀ ∷ a₁ ∷ []) c room b i = absurd (omega arith)
  words-fold_bytes (suc n) (a₀ ∷ a₁ ∷ a₂ ∷ []) c room b i = absurd (omega arith)
  words-fold_bytes (suc n) (a₀ ∷ a₁ ∷ a₂ ∷ a₃ ∷ []) c room b i = absurd (omega arith)
  words-fold_bytes (suc n) (a₀ ∷ a₁ ∷ a₂ ∷ a₃ ∷ a₄ ∷ []) c room b i = absurd (omega arith)
  words-fold_bytes (suc n) (a₀ ∷ a₁ ∷ a₂ ∷ a₃ ∷ a₄ ∷ a₅ ∷ []) c room b i = absurd (omega arith)
  words-fold_bytes (suc n) (a₀ ∷ a₁ ∷ a₂ ∷ a₃ ∷ a₄ ∷ a₅ ∷ a₆ ∷ []) c room b i = absurd (omega arith)
  words-fold_bytes (suc n) (a₀ ∷ a₁ ∷ a₂ ∷ a₃ ∷ a₄ ∷ a₅ ∷ a₆ ∷ a₇ ∷ ds) c room
        (b₀, (b₁, (b₂, (b₃, (b₄, (b₅, (b₆, (b₇, bs)))))))) i =
      let w : List ℕ = a₀ ∷ a₁ ∷ a₂ ∷ a₃ ∷ a₄ ∷ a₅ ∷ a₆ ∷ a₇ ∷ [] in
      let front : IsBytes w = (b₀, (b₁, (b₂, (b₃, (b₄, (b₅, (b₆, (b₇, tt)))))))) in
      let c' = fold_bytes w c in
      ap
        (λ k.
          crc_bytes h (drop k (a₀ ∷ a₁ ∷ a₂ ∷ a₃ ∷ a₄ ∷ a₅ ∷ a₆ ∷ a₇ ∷ ds))
            (crc_words h n ds (h.crc32di c (get64 (a₀ ∷ a₁ ∷ a₂ ∷ a₃ ∷ a₄ ∷ a₅ ∷ a₆ ∷ a₇ ∷ ds)))))
        {x = 8 * suc n} {y = suc (suc (suc (suc (suc (suc (suc (suc (8 * n))))))))} (omega arith)
      ∙ ap (λ r. crc_bytes h (drop (8 * n) ds) (crc_words h n ds r))
          (word_at_once a₀ a₁ a₂ a₃ a₄ a₅ a₆ a₇ c ds front i)
      ∙ words-fold_bytes n ds c' (omega arith) bs (fold_bytes-below w c front i)

  -- Where the instructions do what the manual says, the build for x86-64 and the portable one give
  -- the same CRC32C for the same bytes.
  pub generate_crc32c-generate_crc32c_table :
      (bytes : List ℕ) → IsBytes bytes → generate_crc32c h bytes ≡ generate_crc32c_table bytes
  unfolding generate_crc32c generate_crc32c_on_crc32c
  generate_crc32c-generate_crc32c_table bytes b =
      ap not_u32 (
        words-fold_bytes (length bytes / 8) bytes 4294967295 (omega arith) b (omega arith)
        ∙ fold_bytes-bitwise_loop bytes 4294967295)
      ∙ sym (generate_crc32c_table-bitwise bytes)
