-- ===== src/Log.antt =====
-- src/log.h and src/log.cpp: the log file, its levels, and the lines that are written to it. The clock
-- and what the format of a message stands for are arguments.
pub mod Line
mod Tests
use kvproxy.Base.{
  ℕ, zero, suc, ◌+◌, ◌-◌, ◌^◌, Bool, true, false, Option, none, some, [], ◌∷◌, ◌++◌, ltb, ◌==◌,
  if◌then◌else◌, length, take,
}
use kvproxy.Base.Order.{text_ord}
use kvproxy.Base.Map.{same_key}
use kvproxy.Base.Word.{add32, slt32}
use kvproxy.Base.Text.{Text, codes}
use kvproxy.Util.{decimal}

abbrev pub level_fatal : ℕ
level_fatal = 0

abbrev pub level_error : ℕ
level_error = 1

abbrev pub level_warn : ℕ
level_warn = 2

abbrev pub level_info : ℕ
level_info = 3

abbrev pub level_debug : ℕ
level_debug = 4

-- The level as an `int`, and what the file holds.
pub record Logger : Type 0 where
  pub log_level : ℕ
  pub log_file : Text

abbrev pub new_logger : Logger
new_logger = record { log_level = level_error; log_file = [] }

abbrev pub set_level : ℕ → Logger → Logger
set_level level logger = record logger { log_level = level }

-- getLevel
unfoldable pub get_level : Text → ℕ
get_level levelname =
    if same_key (codes "debug") levelname
    then level_debug
    else if same_key (codes "info") levelname
    then level_info
    else if same_key (codes "warn") levelname
    then level_warn
    else if same_key (codes "error") levelname
    then level_error
    else if same_key (codes "fatal") levelname
    then level_fatal
    else level_error

-- levelName; `none` for a number that is no level, where it returns the empty literal.
unfoldable pub level_name : ℕ → Option Text
level_name level =
    if level == level_fatal
    then some (codes "[FATAL] ")
    else if level == level_error
    then some (codes "[ERROR] ")
    else if level == level_warn
    then some (codes "[WARN ] ")
    else if level == level_info
    then some (codes "[INFO ] ")
    else if level == level_debug
    then some (codes "[DEBUG] ")
    else none

-- The fields of `tm`, and the milliseconds, as `int`.
pub record Moment : Type 0 where
  pub tm_year : ℕ
  pub tm_mon : ℕ
  pub tm_mday : ℕ
  pub tm_hour : ℕ
  pub tm_min : ℕ
  pub tm_sec : ℕ
  pub millis : ℕ

abbrev pub zeros : ℕ → Text → Text
zeros zero s = s
zeros (suc n) s = b'0' ∷ zeros n s

abbrev pub filled : ℕ → Text → Text
filled w digits = zeros (w - length digits) digits

-- "%0wd"
unfoldable pub padded : ℕ → ℕ → Text
unfolding decimal
padded w n =
    if ltb n (2 ^ 31)
    then filled w (decimal 10 n [])
    else b'-' ∷ filled (w - 1) (decimal 10 (2 ^ 32 - n) [])

-- A number, the character behind it, and the rest.
unfoldable pub part : ℕ → ℕ → ℕ → Text → Text
unfolding padded
part w n c rest = padded w n ++ c ∷ rest

unfoldable pub stamp : Moment → Text
unfolding part
stamp m = part 4 (add32 m.tm_year 1900) b'-' (
    part 2 (add32 m.tm_mon 1) b'-' (
      part 2 m.tm_mday b' ' (
        part 2 m.tm_hour b':'
          (part 2 m.tm_min b':' (part 2 m.tm_sec b'.' (part 3 m.millis b' ' []))))))

-- LEVEL_NAME_LEN and LOG_BUF_LEN
abbrev pub level_name_len : ℕ
level_name_len = 8

abbrev pub log_buf_len : ℕ
log_buf_len = 4096

-- The eight bytes that memcpy takes; behind the empty literal there is whatever is there.
abbrev pub name_field : Text → ℕ → Text
name_field behind level = elim (level_name level) [ none ↦ take level_name_len behind | some s ↦ s ]

-- What the buffer holds behind the name once vsnprintf has written into `space` bytes and `ptr`
-- was moved: a message that is too long loses its end, and its last byte is the 0.
unfoldable pub printed : ℕ → Text → Text
printed space message =
    if ltb (length message) space then message else take (space - 1) message ++ 0 ∷ []

abbrev pub minus_one : ℕ
minus_one = 2 ^ 32 - 1

-- The room that is left for the message.
abbrev pub space_of : Text → ℕ
space_of start = log_buf_len - length start - 10

unfoldable pub line : Text → ℕ → Moment → Text → Text
unfolding stamp level_name printed
line behind level moment message =
    let start = stamp moment ++ name_field behind level in
    start ++ printed (space_of start) message ++ b'\n' ∷ []

-- logx. `stamped` is whether sprintf succeeds, and `message` what the format stands for, none
-- where vsnprintf fails. The result is the length of the line.
unfoldable pub logx : Text → Bool → ℕ → Moment → Option Text → Logger → ℕ × Logger
unfolding line
logx behind stamped level moment message logger =
    if slt32 logger.log_level level
    then (0, logger)
    else if stamped
    then elim message [
      | none ↦ (minus_one, logger)
      | some s ↦ (
        length (line behind level moment s),
        record logger { log_file = logger.log_file ++ line behind level moment s },
      )
    ]
    else (minus_one, logger)

-- log_write, and the functions of class Logger for one level.
abbrev pub log_write : Text → Bool → ℕ → Moment → Option Text → Logger → ℕ × Logger
log_write = logx

abbrev pub debug : Text → Bool → Moment → Option Text → Logger → ℕ × Logger
debug behind stamped = logx behind stamped level_debug

abbrev pub info : Text → Bool → Moment → Option Text → Logger → ℕ × Logger
info behind stamped = logx behind stamped level_info

abbrev pub warn : Text → Bool → Moment → Option Text → Logger → ℕ × Logger
warn behind stamped = logx behind stamped level_warn

abbrev pub error : Text → Bool → Moment → Option Text → Logger → ℕ × Logger
error behind stamped = logx behind stamped level_error

abbrev pub fatal : Text → Bool → Moment → Option Text → Logger → ℕ × Logger
fatal behind stamped = logx behind stamped level_fatal
