-- ===== src/Base/Word.antt =====
-- `int` and `uint32_t` as bit patterns below 2 ^ 32, with their wrap-around.
use kvproxy.Base.Tests.{ltb}
use Prim.Native.Nat.{ℕ, ◌+◌, ◌-◌, ◌%◌, ◌^◌, ◌<◌}
use mathlib.Core.Bool.{Bool}
use mathlib.Core.Path.{◌≡◌}
use native.Mathlib.Omega.{arith}

abbrev pub add32 : ℕ → ℕ → ℕ
add32 a b = (a + b) % 2 ^ 32

abbrev pub sub32 : ℕ → ℕ → ℕ
sub32 a b = (a + 2 ^ 32 - b) % 2 ^ 32

-- `a < b` on `int`: the order of the patterns once the sign bit is flipped.
abbrev pub slt32 : ℕ → ℕ → Bool
slt32 a b = ltb ((a + 2 ^ 31) % 2 ^ 32) ((b + 2 ^ 31) % 2 ^ 32)

-- Below 2 ^ 31 a pattern is the number itself.
pub slt32-ltb : (a b : ℕ) → a < 2 ^ 31 → b < 2 ^ 31 → slt32 a b ≡ ltb a b
slt32-ltb a b h k = ground arith

-- The test `size - position > 0`, for a size that is no negative number.
pub left_iff : (n p : ℕ) → n < 2 ^ 31 → p < n + 2 ^ 31 → slt32 0 (sub32 n p) ≡ ltb p n
left_iff n p h k = ground arith

-- No sum below 2 ^ 32 wraps.
pub add32-eq-add : (a b : ℕ) → a + b < 2 ^ 32 → add32 a b ≡ a + b
add32-eq-add a b h = omega arith
