-- ===== src/Crc/Remainder.antt =====
-- The table of `crc32` in src/hash.cpp holds the remainders of the CRC-32 polynomial.
use Prim.Native.Nat.{bit_and, bit_xor, bit_and-bitwise, digits, min}
use kvproxy.Base.{
  ℕ, zero, suc, ◌+◌, ◌/◌, ◌%◌, ◌≤◌, ◌<◌, ◌≡◌, refl, ◌∙◌, ap, some, List, [], ◌∷◌, get_or, ◌==◌,
  if◌then◌else◌, arith,
}
use kvproxy.Base.Text.{Text}
use kvproxy.Crc.Table.{crc32_table}
use kvproxy.Crc.{crc32_step, crc32_loop, crc32}

-- One step of the division: shift out the lowest bit, and subtract the polynomial if it was 1.
abbrev pub divide : ℕ → ℕ
divide r = if r % 2 == 1 then bit_xor (r / 2) 0xedb88320 else r / 2

abbrev pub divide_by : ℕ → ℕ → ℕ
divide_by zero r = r
divide_by (suc n) r = divide_by n (divide r)

-- The remainder of a byte.
unfoldable pub remainder : ℕ → ℕ
remainder i = divide_by 8 i

abbrev remainders : ℕ → ℕ → List ℕ
remainders zero i = []
remainders (suc n) i = remainder i ∷ remainders n (i + 1)

table_lem : crc32_table ≡ remainders 256 0
unfolding crc32_table remainder
table_lem = refl

get_or-remainders : (n i k : ℕ) → k < n → get_or (remainders n i) k 0 ≡ remainder (i + k)
get_or-remainders zero i k h = absurd (omega arith)
get_or-remainders (suc n) i zero h = ap remainder (omega arith)
get_or-remainders (suc n) i (suc k) h =
    get_or-remainders n (i + 1) k (omega arith) ∙ ap remainder (omega arith)

digits-le : (n a b : ℕ) → digits (λ b. zero) min n a b ≤ b
digits-le zero zero b = omega arith
digits-le zero (suc a) b = omega arith
digits-le (suc n) zero b = omega arith
digits-le (suc n) (suc a) b = omega (arith, digits-le n (suc a / 2) (b / 2))

low_byte : (a : ℕ) → bit_and a 0xff < 256
low_byte a = omega (arith, bit_and-bitwise a 0xff, digits-le a a 0xff)

-- The same checksum without a table: eight steps of the division for each byte.
abbrev pub divide_bytes : ℕ → Text → ℕ
divide_bytes crc [] = crc
divide_bytes crc (c ∷ buf) =
    divide_bytes (bit_xor (crc / 256) (remainder (bit_and (bit_xor crc c) 0xff))) buf

entry-remainder : (k : ℕ) → k < 256 → get_or crc32_table k 0 ≡ remainder k
entry-remainder k h =
    ap (λ t. get_or t k 0) table_lem ∙ get_or-remainders 256 0 k h ∙ ap remainder (omega arith)

crc32_step-entry :
    (crc c : ℕ)
    → crc32_step crc c ≡ bit_xor (crc / 256) (get_or crc32_table (bit_and (bit_xor crc c) 0xff) 0)
unfolding crc32_step crc32_table
crc32_step-entry crc c = refl

crc32_step-remainder :
    (crc c : ℕ) → crc32_step crc c ≡ bit_xor (crc / 256) (remainder (bit_and (bit_xor crc c) 0xff))
crc32_step-remainder crc c =
    crc32_step-entry crc c
    ∙ ap (bit_xor (crc / 256))
        (entry-remainder (bit_and (bit_xor crc c) 0xff) (low_byte (bit_xor crc c)))

crc32_loop-divide_bytes : (buf : Text) (crc : ℕ) → crc32_loop crc buf ≡ divide_bytes crc buf
unfolding crc32_loop
crc32_loop-divide_bytes [] crc = refl
crc32_loop-divide_bytes (c ∷ buf) crc =
    crc32_loop-divide_bytes buf (crc32_step crc c)
    ∙ ap (λ r. divide_bytes r buf) (crc32_step-remainder crc c)

-- For any bytes and any start, `crc32` with its table of 256 numbers gives what dividing bit by bit by
-- the polynomial 0xedb88320 gives, eight steps for each byte, with the checksum inverted before and
-- after.
pub crc32-divide_bytes :
    (crc : ℕ) (buf : Text)
    → crc32 crc (some buf) ≡ bit_xor (divide_bytes (bit_xor crc 0xffffffff) buf) 0xffffffff
unfolding crc32
crc32-divide_bytes crc buf =
    ap (λ r. bit_xor r 0xffffffff) (crc32_loop-divide_bytes buf (bit_xor crc 0xffffffff))
