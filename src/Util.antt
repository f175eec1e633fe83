-- ===== src/Util.antt =====
-- src/util.h and src/util.cpp: the conversions between numbers and text, and the splitting of text.
use kvproxy.Base.{
  ℕ, zero, suc, ◌+◌, ◌-◌, ◌*◌, ◌/◌, ◌%◌, ◌^◌, ◌≡◌, refl, Bool, false, ◌&&◌, ◌||◌, Option, none,
  some, [], ◌∷◌, ◌++◌, ltb, leb, ◌==◌, if◌then◌else◌,
}
use kvproxy.Base.Order.{nat_ord}
use kvproxy.Base.Map.{Map, insert, at}
use kvproxy.Base.Text.{Text, codes}
use Prim.Native.Nat.{min}

-- The decimal digits of n, in front of `acc`.
unfoldable pub decimal : ℕ → ℕ → Text → Text
decimal zero n acc = acc
decimal (suc fuel) n acc =
    let digit = (n % 10 + b'0') ∷ acc in
    let rest = decimal fuel (n / 10) digit in if n / 10 == 0 then digit else rest

-- sprintf(str, "%d", n) for the `int` with the bit pattern n. Ten digits hold any 32-bit number.
unfoldable pub int2str : ℕ → Text
unfolding decimal
int2str n = if ltb n (2 ^ 31) then decimal 10 n [] else b'-' ∷ decimal 10 (2 ^ 32 - n) []

unfoldable pub is_space : ℕ → Bool
is_space c = c == 32 || (leb 9 c && leb c 13)

abbrev pub is_digit : ℕ → Bool
is_digit c = leb b'0' c && leb c b'9'

-- The number that the leading digits stand for, and whether there is one.
unfoldable pub read_digits : ℕ → Text → ℕ
read_digits n [] = n
read_digits n (c ∷ s) =
    let rest = read_digits (n * 10 + (c - b'0')) s in if is_digit c then rest else n

abbrev pub starts_with_digit : Text → Bool
starts_with_digit [] = false
starts_with_digit (c ∷ s) = is_digit c

-- `strtol` stops at the ends of `long`, and `int` takes the low 32 bits.
unfoldable pub read_unsigned : Text → Option ℕ
unfolding read_digits
read_unsigned s =
    if starts_with_digit s then some (min (read_digits 0 s) (2 ^ 63 - 1) % 2 ^ 32) else none

unfoldable pub read_negated : Text → Option ℕ
unfolding read_digits
read_negated s =
    if starts_with_digit s
    then some ((2 ^ 32 - min (read_digits 0 s) (2 ^ 63) % 2 ^ 32) % 2 ^ 32)
    else none

-- sscanf(str, "%d", &n); `none` where it stores nothing and `n` stays uninitialised.
unfoldable pub str2int : Text → Option ℕ
unfolding is_space read_unsigned read_negated
str2int [] = none
str2int (c ∷ s) =
    let rest = str2int s in
    if is_space c
    then rest
    else if c == b'-'
    then read_negated s
    else if c == b'+'
    then read_unsigned s
    else read_unsigned (c ∷ s)

unfoldable pub bool2str : Bool → Text
bool2str n = if n then codes "yes" else codes "no"

-- The loop of `split`, from the character that the iterator is at.
unfoldable pub split_from : ℕ → ℕ → Map ℕ Text → Text → Map ℕ Text
split_from chr i ret [] = ret
split_from chr i ret (c ∷ content) =
    split_from chr (if c == chr then i + 1 else i)
      (if c == chr then ret else insert i (at i [] ret ++ c ∷ []) ret) content

unfoldable pub split : Text → ℕ → Map ℕ Text
unfolding split_from
split content chr = split_from chr 0 [] content

-- bin_path.substr(0, bin_path.find_last_of("/")) and "/"; `none` where there is no "/": the process
-- ends.
unfoldable pub get_cwd : Text → Option Text
get_cwd [] = none
get_cwd (c ∷ bin_path) = elim (get_cwd bin_path) [
  | some cwd ↦ some (c ∷ cwd)
  | none ↦ if c == b'/' then some (b'/' ∷ []) else none
]

int2str_runs : (int2str 11211 ≡ codes "11211") × (int2str (2 ^ 32 - 7) ≡ codes "-7")
unfolding int2str
int2str_runs = (refl, refl)

split_runs : split (codes "127.0.0.1:80") b':' ≡ (0, codes "127.0.0.1") ∷ (1, codes "80") ∷ []
unfolding split
split_runs = refl

get_cwd_runs : get_cwd (codes "/usr/bin/kvproxy") ≡ some (codes "/usr/bin/")
unfolding get_cwd
get_cwd_runs = refl
