-- ===== src/Crc/Tests.antt =====
-- `crc32` of src/hash.cpp on a few bytes.
use Prim.Native.Nat.{bit_xor}
use kvproxy.Base.{◌≡◌, some}
use kvproxy.Base.Text.{codes}
use kvproxy.Crc.{crc32}
use kvproxy.Crc.Remainder.{divide_bytes, crc32-divide_bytes}

crc32-divide_bytes_example :
    crc32 0 (some (codes "key")) ≡ bit_xor (divide_bytes 0xffffffff (codes "key")) 0xffffffff
crc32-divide_bytes_example = crc32-divide_bytes 0 (codes "key")
