-- ===== src/Log/Line.antt =====
-- The lines of src/log.cpp fit the buffer.
use kvproxy.Base.{
  ℕ, zero, suc, ◌+◌, ◌-◌, ◌/◌, ◌%◌, ◌^◌, ◌≤◌, ◌<◌, ◌≡◌, refl, ◌⊎◌, inl, inr, Bool, true, false,
  Option, none, some, [], ◌∷◌, ◌++◌, arith, ltb, length, length-append, take, Bool-cases,
}
use kvproxy.Base.Word.{slt32, add32}
use kvproxy.Base.Text.{Text}
use kvproxy.Util.{decimal}
use kvproxy.Log.{
  Logger, Moment, level_name, zeros, filled, padded, part, stamp, name_field, printed, minus_one,
  space_of, log_buf_len, line, logx,
}

length-decimal : (fuel n : ℕ) (acc : Text) → length (decimal fuel n acc) ≤ fuel + length acc
unfolding decimal
length-decimal zero n acc = omega arith
length-decimal (suc fuel) n acc =
    ground (arith, length-decimal fuel (n / 10) ((n % 10 + b'0') ∷ acc))

length-zeros : (n : ℕ) (s : Text) → length (zeros n s) ≡ n + length s
length-zeros zero s = omega arith
length-zeros (suc n) s = omega (arith, length-zeros n s)

length-take : (n : ℕ) (s : Text) → length (take n s) ≤ n
length-take zero s = omega arith
length-take (suc n) [] = omega arith
length-take (suc n) (c ∷ s) = omega (arith, length-take n s)

length-filled : (w : ℕ) (d : Text) → w ≤ 4 → length d ≤ 10 → length (filled w d) ≤ 10
length-filled w d h l = omega (arith, length-zeros (w - length d) d)

-- An `int` has at most ten digits and a sign.
length-padded : (w n : ℕ) → w ≤ 4 → length (padded w n) ≤ 11
unfolding padded
length-padded w n h = elim (Bool-cases (ltb n (2 ^ 31))) [
  | inl e ↦ rw e (up (length-filled w (decimal 10 n []) h (length-decimal 10 n [])))
  | inr e ↦ rw e (
      over (
        length-filled (w - 1) (decimal 10 (2 ^ 32 - n) []) (omega arith)
          (length-decimal 10 (2 ^ 32 - n) [])))
]
  where
    up : {k : ℕ} → k ≤ 10 → k ≤ 11
    up h = omega arith

    over : {k : ℕ} → k ≤ 10 → suc k ≤ 11
    over h = omega arith

length-part :
    (w n c k : ℕ) (rest : Text) → w ≤ 4 → length rest ≤ k → length (part w n c rest) ≤ k + 12
unfolding part
length-part w n c k rest h l =
    omega (arith, length-append (padded w n) (c ∷ rest), length-padded w n h)

length-stamp : (m : Moment) → length (stamp m) ≤ 84
unfolding stamp
length-stamp m =
    let r0 = part 3 m.millis b' ' [] in
    let r1 = part 2 m.tm_sec b'.' r0 in
    let r2 = part 2 m.tm_min b':' r1 in
    let r3 = part 2 m.tm_hour b':' r2 in
    let r4 = part 2 m.tm_mday b' ' r3 in
    let r5 = part 2 (add32 m.tm_mon 1) b'-' r4 in
    let l0 = length-part 3 m.millis b' ' 0 [] (omega arith) (omega arith) in
    let l1 = length-part 2 m.tm_sec b'.' 12 r0 (omega arith) l0 in
    let l2 = length-part 2 m.tm_min b':' 24 r1 (omega arith) l1 in
    let l3 = length-part 2 m.tm_hour b':' 36 r2 (omega arith) l2 in
    let l4 = length-part 2 m.tm_mday b' ' 48 r3 (omega arith) l3 in
    let l5 = length-part 2 (add32 m.tm_mon 1) b'-' 60 r4 (omega arith) l4 in
    length-part 4 (add32 m.tm_year 1900) b'-' 72 r5 (omega arith) l5

length-name_field : (behind : Text) (level : ℕ) → length (name_field behind level) ≤ 8
unfolding level_name
length-name_field behind level = ground (arith, length-take 8 behind)

length-printed : (space : ℕ) (message : Text) → 0 < space → length (printed space message) ≤ space
unfolding printed
length-printed space message h =
    ground
      (arith, length-take (space - 1) message, length-append (take (space - 1) message) (0 ∷ []))

start : Text → ℕ → Moment → Text
start behind level m = stamp m ++ name_field behind level

length-start : (behind : Text) (level : ℕ) (m : Moment) → length (start behind level m) ≤ 92
unfolding start
length-start behind level m = omega (
  arith,
  length-append (stamp m) (name_field behind level),
  length-stamp m,
  length-name_field behind level,
)

-- A line and the 0 behind it fit the buffer; a message below 3,994 bytes stands there whole.
pub record IsLine (behind : Text) (level : ℕ) (m : Moment) (message text : Text) : Type 0 where
  pub fits : length text < log_buf_len
  pub whole :
      (text ≡ (stamp m ++ name_field behind level) ++ message ++ b'\n' ∷ [])
      ⊎ (3994 ≤ length message)

line-fits :
    (s p : Text) → length s ≤ 92 → length p ≤ space_of s → length (s ++ p ++ b'\n' ∷ []) < 4096
line-fits s p h l = omega (arith, length-append (s ++ p) (b'\n' ∷ []), length-append s p)

line-whole :
    (s message : Text)
    → length s ≤ 92
    → (s ++ printed (space_of s) message ++ b'\n' ∷ [] ≡ s ++ message ++ b'\n' ∷ [])
      ⊎ (3994 ≤ length message)
unfolding printed
line-whole s message h = ground arith

line-IsLine :
    (behind : Text) (level : ℕ) (m : Moment) (message : Text)
    → IsLine behind level m message (line behind level m message)
unfolding line
line-IsLine behind level m message =
    let short : length (stamp m ++ name_field behind level) ≤ 92 =
      unfold start in length-start behind level m in
    record {
      fits =
          line-fits (stamp m ++ name_field behind level) _ short
            (length-printed _ message (omega (arith, short)));
      whole = line-whole (stamp m ++ name_field behind level) message short;
    }

-- A message above the logger's level is not written, and 0 comes back. Any other message leaves the
-- file as it is and gives -1 where the formatting fails, and otherwise one line is added and its length comes back: the line
-- and the 0 behind it fit the buffer of 4,096 bytes, whatever the clock says, and a message of less
-- than 3,994 bytes stands in it whole, between the time and the level's name and the end of the line.
pub logx-IsLine :
    (behind : Text) (stamped : Bool) (level : ℕ) (m : Moment) (message : Option Text)
    (logger : Logger)
    → ((slt32 logger.log_level level ≡ true)
        × (logx behind stamped level m message logger ≡ (0, logger)))
      ⊎ ((slt32 logger.log_level level ≡ false)
          × ((stamped ≡ false) ⊎ (message ≡ none))
          × (logx behind stamped level m message logger ≡ (minus_one, logger)))
      ⊎ ((slt32 logger.log_level level ≡ false)
          × (s : Text) × (text : Text) × (message ≡ some s)
          × IsLine behind level m s text
          × (logx behind stamped level m message logger
              ≡ (length text, record logger { log_file = logger.log_file ++ text })))
unfolding logx
logx-IsLine behind stamped level m message logger =
    elim (Bool-cases (slt32 logger.log_level level)) [
      | inl e ↦ inl (e, rw e refl)
      | inr e ↦ inr (allowed stamped message e)
    ]
  where
    allowed :
        (stamped : Bool) (message : Option Text)
        → slt32 logger.log_level level ≡ false
        → ((slt32 logger.log_level level ≡ false)
            × ((stamped ≡ false) ⊎ (message ≡ none))
            × (logx behind stamped level m message logger ≡ (minus_one, logger)))
          ⊎ ((slt32 logger.log_level level ≡ false)
              × (s : Text) × (text : Text) × (message ≡ some s)
              × IsLine behind level m s text
              × (logx behind stamped level m message logger
                  ≡ (length text, record logger { log_file = logger.log_file ++ text })))
    allowed false message e = inl (e, inl refl, rw e refl)
    allowed true none e = inl (e, inr refl, rw e refl)
    allowed true (some s) e =
        inr (e, s, line behind level m s, refl, line-IsLine behind level m s, rw e refl)
