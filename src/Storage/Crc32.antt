-- ===== src/Storage/Crc32.antt =====
-- cpp/core/storage/crc32.hpp: the table-driven CRC-32.
pub mod Bitwise
use Prim.Native.Nat.{bit_and, bit_xor}
use cascade.Base.{
  ℕ, zero, suc, ◌+◌, ◌*◌, ◌/◌, ◌^◌, ◌≤◌, ◌<◌, ◌≡◌, refl, List, [], ◌∷◌, arith, if◌then◌else◌, ◌==◌,
  get_or,
}
use cascade.Base.Bits.{bit_xor-lt}

abbrev pub polynomial : ℕ
polynomial = 0xEDB88320

-- One turn of the inner loop: `(c & 1) ? (0xEDB88320u ^ (c >> 1)) : (c >> 1)`.
unfoldable pub crc_bit : ℕ → ℕ
crc_bit c = if bit_and c 1 == 0 then c / 2 else bit_xor polynomial (c / 2)

unfoldable pub crc_bits : ℕ → ℕ → ℕ
crc_bits zero c = c
crc_bits (suc k) c = crc_bits k (crc_bit c)

-- The entries for `i` and the `n - 1` numbers after it.
unfoldable pub table_from : ℕ → ℕ → List ℕ
table_from zero i = []
table_from (suc n) i = crc_bits 8 i ∷ table_from n (i + 1)

unfoldable pub crc32_table : List ℕ
crc32_table = table_from 256 0

-- The loop over the data.
unfoldable pub crc_loop : ℕ → List ℕ → ℕ
crc_loop c [] = c
crc_loop c (d ∷ ds) =
    crc_loop (bit_xor (get_or crc32_table (bit_and (bit_xor c d) 0xFF) 0) (c / 2 ^ 8)) ds

unfoldable pub crc32 : List ℕ → ℕ
crc32 ds = bit_xor (crc_loop 0xFFFFFFFF ds) 0xFFFFFFFF

check_value : crc32 (49 ∷ 50 ∷ 51 ∷ 52 ∷ 53 ∷ 54 ∷ 55 ∷ 56 ∷ 57 ∷ []) ≡ 0xCBF43926
unfolding crc32 crc_loop crc32_table table_from crc_bits crc_bit
check_value = refl
