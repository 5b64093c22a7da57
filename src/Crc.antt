-- ===== src/Crc.antt =====
-- Go's hash/crc32 with the IEEE polynomial, bit by bit.
use Prim.Native.Nat.{bit_xor}
use re_terminal_eink_signage.Base.{
  ℕ, zero, suc, ◌/◌, ◌%◌, ◌^◌, ◌<◌, ◌≡◌, refl, List, [], ◌∷◌, arith, ◌==◌, if◌then◌else◌, text,
}

-- Eight rounds of the table's construction.
crc_bits : ℕ → ℕ → ℕ
crc_bits zero c = c
crc_bits (suc n) c = crc_bits n (if c % 2 == 1 then bit_xor (c / 2) 0xedb88320 else c / 2)

crc_bytes : ℕ → List ℕ → ℕ
unfolding crc_bits
crc_bytes c [] = c
crc_bytes c (b ∷ bs) = crc_bytes (bit_xor (c / 256) (crc_bits 8 (bit_xor (c % 256) b))) bs

-- `crc32.Update`.
unfoldable pub update : ℕ → List ℕ → ℕ
unfolding crc_bytes
update crc bs = bit_xor (crc_bytes (bit_xor crc 0xffffffff) bs) 0xffffffff % 2 ^ 32

-- `crc32.ChecksumIEEE`.
unfoldable pub checksum_ieee : List ℕ → ℕ
unfolding update
checksum_ieee = update 0

pub checksum_ieee-lt : (bs : List ℕ) → checksum_ieee bs < 2 ^ 32
unfolding checksum_ieee
checksum_ieee-lt bs = omega arith

-- The check value of the CRC-32 of "123456789".
check_value : checksum_ieee (text "123456789") ≡ 0xcbf43926
unfolding checksum_ieee
check_value = refl
