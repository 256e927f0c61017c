-- ===== src/Persistence/Rdb/Crc32.antt =====
-- `zlib.crc32`: the polynomial 0xedb88320, bit by bit.
use Prim.Native.Nat.{bit_xor}
use byo_redis.Prelude.{
  ℕ, zero, suc, ◌/◌, ◌%◌, ◌^◌, ◌<◌, ◌≡◌, refl, [], ◌∷◌, arith, ◌==◌, if◌then◌else◌,
}
use byo_redis.Text.{Bytes, codes}

crc_bits : ℕ → ℕ → ℕ
crc_bits zero c = c
crc_bits (suc n) c = crc_bits n (if c % 2 == 1 then bit_xor (c / 2) 0xedb88320 else c / 2)

crc_bytes : ℕ → Bytes → ℕ
unfolding crc_bits
crc_bytes c [] = c
crc_bytes c (b ∷ bs) = crc_bytes (crc_bits 8 (bit_xor c b)) bs

-- The result is an unsigned number of 32 bits.
unfoldable pub crc32 : Bytes → ℕ
unfolding crc_bytes
crc32 bs = bit_xor (crc_bytes 0xffff_ffff bs) 0xffff_ffff % 2 ^ 32

pub crc32-lt : (bs : Bytes) → crc32 bs < 2 ^ 32
unfolding crc32
crc32-lt bs = omega arith

crc32_check : crc32 (codes "123456789") ≡ 0xcbf43926
unfolding crc32
crc32_check = refl
