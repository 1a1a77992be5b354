-- ===== src/Checksum.antt =====
-- src/checksum.rs: CRC-32C. The source precomputes `table_entry` for the 256 indices.
use Prim.Native.Nat.{bit_and, bit_xor}
use trine_kv.Prelude.{ℕ, zero, suc, ◌-◌, ◌/◌, ◌≤◌, [], ◌∷◌, ◌==◌, if◌then◌else◌, arith}
use trine_kv.Keys.{Bytes, u32_max}

abbrev crc32c_poly_reversed : ℕ
crc32c_poly_reversed = 2197175160

-- The inner loop of `build_crc32c_table`, of `bits` rounds.
abbrev crc_rounds : ℕ → ℕ → ℕ
crc_rounds zero crc = crc
crc_rounds (suc bits) crc =
    crc_rounds bits (if bit_and crc 1 == 0 then crc / 2 else bit_xor (crc / 2) crc32c_poly_reversed)

unfoldable pub table_entry : ℕ → ℕ
table_entry index = crc_rounds 8 index

abbrev crc_loop : ℕ → Bytes → ℕ
crc_loop crc [] = crc
crc_loop crc (byte ∷ bytes) =
    crc_loop (bit_xor (crc / 256) (table_entry (bit_and (bit_xor crc byte) 255))) bytes

-- `!crc` of a `u32`, written as a subtraction.
unfoldable pub crc32c : Bytes → ℕ
crc32c bytes = u32_max - crc_loop u32_max bytes

pub crc32c_fits : (bytes : Bytes) → crc32c bytes ≤ u32_max
unfolding crc32c
crc32c_fits bytes = omega arith
