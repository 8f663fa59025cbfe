-- ===== src/Crc/Tests.antt =====
-- The check value of CRC32C: that of the digits 1 to 9.
use Prim.{tt}
use libkpnet.Base.{ℕ, arith, bit_xor, ◌≡◌, refl, List, [], ◌∷◌}
use libkpnet.Crc.{Host, not_u32, generate_crc32c}
use libkpnet.Crc.Instr.{IsCrc32, divide, generate_crc32c-generate_crc32c_table}
use libkpnet.Checks.Ones.{IsBytes}
use libkpnet.Crc.Table.{table_loop, generate_crc32c_table}
use libkpnet.Crc.Table.Bitwise.{bitwise_loop, generate_crc32c_table-bitwise}

abbrev digits_text : List ℕ
digits_text = 49 ∷ 50 ∷ 51 ∷ 52 ∷ 53 ∷ 54 ∷ 55 ∷ 56 ∷ 57 ∷ []

generate_crc32c_table-bitwise_example :
    generate_crc32c_table digits_text ≡ not_u32 (bitwise_loop digits_text 4294967295)
generate_crc32c_table-bitwise_example = generate_crc32c_table-bitwise digits_text

check_value : generate_crc32c_table digits_text ≡ 3808858755
unfolding generate_crc32c_table table_loop
check_value = refl

-- The instructions as the manual describes them.
abbrev manual : Host
manual = record {
  crc32qi = λ c d. divide 8 (bit_xor c d);
  crc32di = λ c q. divide 64 (bit_xor c q);
  md5 = λ t. [];
}

manual-IsCrc32 : IsCrc32 manual
manual-IsCrc32 = record { byte = λ c d h i. refl; word = λ c q h i. refl }

digits_text-IsBytes : IsBytes digits_text
digits_text-IsBytes = (
  omega arith,
  (
    omega arith,
    (
      omega arith,
      (omega arith, (omega arith, (omega arith, (omega arith, (omega arith, (omega arith, tt)))))),
    ),
  ),
)

generate_crc32c-generate_crc32c_table_example :
    generate_crc32c manual digits_text ≡ generate_crc32c_table digits_text
generate_crc32c-generate_crc32c_table_example =
    generate_crc32c-generate_crc32c_table manual-IsCrc32 digits_text digits_text-IsBytes
