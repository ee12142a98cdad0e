-- ===== src/Label/Crc.antt =====
-- `crc8Step` and `crc8` of src/embedbench_host.cpp: CRC-8/ATM, polynomial 0x07.
use embed_bench.Prelude.{
  ℕ, zero, suc, ◌*◌, ◌%◌, ◌≡◌, refl, List, [], ◌∷◌, bit_xor, leb, if◌then◌else◌,
}

-- One round of the bit loop of `crc8`: shift left in eight bits, and reduce where the top bit was set.
unfoldable pub crc8_bit : ℕ → ℕ
crc8_bit crc = if leb 128 crc then bit_xor (crc * 2 % 256) 0x07 else crc * 2 % 256

-- The bit loop: `n` rounds.
unfoldable pub crc8_bits : ℕ → ℕ → ℕ
unfolding crc8_bit
crc8_bits zero crc = crc
crc8_bits (suc n) crc = crc8_bits n (crc8_bit crc)

-- The copy of that round, and of that loop, which `crc8Step` has.
unfoldable pub crc8_step_bit : ℕ → ℕ
crc8_step_bit crc = if leb 128 crc then bit_xor (crc * 2 % 256) 0x07 else crc * 2 % 256

unfoldable pub crc8_step_bits : ℕ → ℕ → ℕ
unfolding crc8_step_bit
crc8_step_bits zero crc = crc
crc8_step_bits (suc n) crc = crc8_step_bits n (crc8_step_bit crc)

unfoldable pub crc8_step : ℕ → ℕ → ℕ
unfolding crc8_step_bits
crc8_step crc value = crc8_step_bits 8 (bit_xor crc value)

-- The byte loop of `crc8`, from any state, with the bit loop written out in it as the source does.
unfoldable pub crc8_from : ℕ → List ℕ → ℕ
unfolding crc8_bits
crc8_from crc [] = crc
crc8_from crc (b ∷ bs) = crc8_from (crc8_bits 8 (bit_xor crc b)) bs

unfoldable pub crc8 : List ℕ → ℕ
unfolding crc8_from
crc8 bytes = crc8_from 0 bytes

-- A running checksum: `crc8Step` over the bytes.
unfoldable pub crc8_steps : ℕ → List ℕ → ℕ
unfolding crc8_step
crc8_steps crc [] = crc
crc8_steps crc (b ∷ bs) = crc8_steps (crc8_step crc b) bs

-- The check value of CRC-8/ATM over "123456789".
crc8_check : crc8 (49 ∷ 50 ∷ 51 ∷ 52 ∷ 53 ∷ 54 ∷ 55 ∷ 56 ∷ 57 ∷ []) ≡ 0xF4
unfolding crc8
crc8_check = refl
