-- ===== src/Crc.antt =====
-- `crc32` of src/hash.cpp. A byte is its `unsigned char` value: the code looks at the low eight
-- bits of what it reads.
mod Table
pub mod Remainder
mod Tests
use Prim.Native.Nat.{bit_and, bit_xor}
use kvproxy.Base.{ℕ, ◌/◌, ◌≡◌, refl, Option, none, some, List, [], ◌∷◌, get_or}
use kvproxy.Base.Text.{Text, codes}
use Table.{crc32_table}

-- crc = (crc >> 8) ^ crc32_table[(crc ^ *buf++) & 0xff]
unfoldable pub crc32_step : ℕ → ℕ → ℕ
unfolding crc32_table
crc32_step crc c = bit_xor (crc / 256) (get_or crc32_table (bit_and (bit_xor crc c) 0xff) 0)

-- while (len--)
unfoldable pub crc32_loop : ℕ → Text → ℕ
unfolding crc32_step
crc32_loop crc [] = crc
crc32_loop crc (c ∷ buf) = crc32_loop (crc32_step crc c) buf

-- `buf` holds the `len` bytes that are read; `none` is the null pointer.
unfoldable pub crc32 : ℕ → Option Text → ℕ
unfolding crc32_loop
crc32 crc none = crc
crc32 crc (some buf) = bit_xor (crc32_loop (bit_xor crc 0xffffffff) buf) 0xffffffff

-- The check value of CRC-32.
crc32_check : crc32 0 (some (codes "123456789")) ≡ 0xcbf43926
unfolding crc32
crc32_check = refl
