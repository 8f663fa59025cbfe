-- ===== src/Crc/Table/Bitwise.antt =====
-- The table holds the remainders of the bytes by the reflected polynomial of RFC 9260.
use libkpnet.Base.{
  ℕ, zero, suc, ◌+◌, ◌/◌, ◌%◌, ◌<◌, ◌≡◌, refl, ap, ◌∙◌, arith, List, [], ◌∷◌, get_or, bit_xor, ◌==◌,
  if◌then◌else◌,
}
use libkpnet.Crc.{not_u32}
use libkpnet.Crc.Table.{crc_table, table_loop, generate_crc32c_table}

-- The polynomial 0x1EDC6F41 with its bits in the other order.
abbrev pub polynomial : ℕ
polynomial = 2197175160

-- One bit of a remainder, and `n` bits.
abbrev pub bit_step : ℕ → ℕ
bit_step c = if c % 2 == 1 then bit_xor (c / 2) polynomial else c / 2

abbrev pub bit_steps : (n c : ℕ) → ℕ
bit_steps zero c = c
bit_steps (suc n) c = bit_steps n (bit_step c)

-- The CRC without a table: each byte is divided bit by bit.
unfoldable pub bitwise_loop : List ℕ → ℕ → ℕ
bitwise_loop [] c = c
bitwise_loop (d ∷ buffer) c =
    bitwise_loop buffer (bit_xor (c / 256) (bit_steps 8 (bit_xor c d % 256)))

abbrev remainders : (left i : ℕ) → List ℕ
remainders zero i = []
remainders (suc left) i = bit_steps 8 i ∷ remainders left (suc i)

table_lem : crc_table ≡ remainders 256 0
table_lem = refl

get_or-remainders : (left i k : ℕ) → k < left → get_or (remainders left i) k 0 ≡ bit_steps 8 (i + k)
get_or-remainders zero i k h = absurd (omega arith)
get_or-remainders (suc left) i zero h = ap (bit_steps 8) (omega arith)
get_or-remainders (suc left) i (suc k) h =
    get_or-remainders left (suc i) k (omega arith) ∙ ap (bit_steps 8) (omega arith)

get_or-crc_table : (k : ℕ) → k < 256 → get_or crc_table k 0 ≡ bit_steps 8 k
get_or-crc_table k h =
    ap (λ t. get_or t k 0) table_lem ∙ get_or-remainders 256 0 k h ∙ ap (bit_steps 8) (omega arith)

loop_same : (buffer : List ℕ) (c : ℕ) → table_loop buffer c ≡ bitwise_loop buffer c
unfolding table_loop bitwise_loop
loop_same [] c = refl
loop_same (d ∷ buffer) c =
    ap (λ t. table_loop buffer (bit_xor (c / 256) t))
      (get_or-crc_table (bit_xor c d % 256) (omega arith))
    ∙ loop_same buffer _

-- The portable `generate_crc32c` is the complement of the bitwise CRC over the bytes: every entry
-- of its table is the remainder of its index, and the two exchanges of bytes at the end cancel.
pub generate_crc32c_table-bitwise :
    (buffer : List ℕ) → generate_crc32c_table buffer ≡ not_u32 (bitwise_loop buffer 4294967295)
unfolding generate_crc32c_table
generate_crc32c_table-bitwise buffer = omega arith ∙ ap not_u32 (loop_same buffer 4294967295)
