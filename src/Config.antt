-- ===== src/Config.antt =====
-- src/config.h and src/config.cpp: the configuration file, and the values in it.
pub mod Reads
pub mod RoundTrip
mod Tests
use kvproxy.Base.{
  ℕ, zero, suc, ◌+◌, ◌-◌, Bool, true, false, ◌&&◌, ◌||◌, not, Option, none, some, List, [], ◌∷◌,
  ◌++◌, length, leb, ltb, ◌==◌, if◌then◌else◌, map,
}
use kvproxy.Base.Order.{text_ord}
use kvproxy.Base.Map.{Map, insert, at, same_key}
use kvproxy.Base.Text.{Text, codes}
use kvproxy.Util.{str2int}

-- CONF_T
abbrev pub Conf : Type 0
Conf = Map Text (Map Text Text)

-- PARSE_INIT, PARSE_SECTION, PARSE_KEY and PARSE_VALUE
pub data Process : Type 0 where
  init section key value : Process

-- The variables of loadConf for one line; cur_sec stays from line to line.
pub record Line : Type 0 where
  pub process : Process
  pub val_quote : Bool
  pub cur_sec : Text
  pub cur_key : Text
  pub cur_val : Text

pub data Turn : Type 0 where
  next stop : Line → Turn

-- line[i] <= 32 on a signed `char`
abbrev pub is_low : ℕ → Bool
is_low c = leb c 32 || leb 128 c

-- The body of the loop over the characters of a line: its tests by the value of `process`.
unfoldable pub read_init : ℕ → Line → Turn
read_init c l =
    if c == b';'
    then stop l
    else if is_low c
    then next l
    else if c == b'['
    then next (record l { process = section; cur_sec = [] })
    else next (record l { process = key; cur_key = c ∷ [] })

unfoldable pub read_section : ℕ → Line → Turn
read_section c l = if c == b']' then stop l else next (record l { cur_sec = l.cur_sec ++ c ∷ [] })

unfoldable pub read_key : ℕ → Line → Turn
read_key c l =
    if c == b'='
    then next (record l { process = value })
    else if not (is_low c)
    then next (record l { cur_key = l.cur_key ++ c ∷ [] })
    else if c == 0
    then stop l
    else next l

unfoldable pub read_value : ℕ → Line → Turn
read_value c l =
    if is_low c && not l.val_quote
    then next l
    else if c == b'"' && not l.val_quote
    then next (record l { val_quote = true })
    else if c == b'"'
    then stop l
    else next (record l { cur_val = l.cur_val ++ c ∷ [] })

unfoldable pub read_char : Process → ℕ → Line → Turn
unfolding read_init read_section read_key read_value
read_char init = read_init
read_char section = read_section
read_char key = read_key
read_char value = read_value

unfoldable pub read_chars : Text → Line → Line
unfolding read_char
read_chars [] l = l
read_chars (c ∷ line) l = elim (read_char l.process c l) [
  | stop l' ↦ l'
  | next l' ↦ read_chars line l'
]

abbrev pub zeros : ℕ → Text
zeros zero = []
zeros (suc n) = 0 ∷ zeros n

-- The array of 200 characters: the line, and zeros behind it.
abbrev pub line_size : ℕ
line_size = 200

abbrev pub padded : Text → Text
padded line = line ++ zeros (line_size - length line)

-- What loadConf keeps from line to line.
pub record Loaded : Type 0 where
  pub conf : Conf
  pub ext_name : Text
  pub cur_sec : Text

abbrev pub is_empty : Text → Bool
is_empty [] = true
is_empty (_ ∷ _) = false

-- After the characters of a line.
unfoldable pub keep_line : Line → Loaded → Loaded
keep_line l s = record {
  conf =
      if not (is_empty l.cur_key) && not (is_empty l.cur_val)
      then insert l.cur_sec (insert l.cur_key l.cur_val (at l.cur_sec [] s.conf)) s.conf
      else s.conf;
  ext_name =
      if not (same_key l.cur_sec (codes "kvproxy")) && same_key l.cur_key (codes "extension")
      then l.cur_sec
      else s.ext_name;
  cur_sec = l.cur_sec;
}

unfoldable pub load_line : Text → Loaded → Loaded
unfolding keep_line read_chars
load_line line s =
    keep_line
      (read_chars (padded line) (record {
        process = init;
        val_quote = false;
        cur_sec = s.cur_sec;
        cur_key = [];
        cur_val = [];
      }))
      s

-- The loop over the lines. `getline` fails on a line of 200 characters or more, and the program then
-- ends with an error.
unfoldable pub load_lines : List Text → Loaded → Option Loaded
unfolding load_line
load_lines [] s = some s
load_lines (line ∷ file) s =
    let rest = load_lines file (load_line line s) in
    if ltb (length line) line_size then rest else none

-- The lines of a file: what stands between the line ends.
unfoldable pub lines_of : Text → List Text
lines_of [] = [] ∷ []
lines_of (c ∷ text) =
    let rest = lines_of text in
    if c == 10
    then [] ∷ rest
    else elim rest [ [] ↦ (c ∷ []) ∷ [] | line ∷ more ↦ (c ∷ line) ∷ more ]

unfoldable pub load_conf : Text → Loaded → Option Loaded
unfolding load_lines lines_of
load_conf file s = load_lines (lines_of file) s

-- conf[section][key], which makes the entries that are missing.
abbrev pub touch : Text → Text → Conf → Conf
touch sec k conf = insert sec (insert k (at k [] (at sec [] conf)) (at sec [] conf)) conf

-- The getters for one key, and for a section. Each gives the value, and conf afterwards.
unfoldable pub get_conf_str : Text → Text → Conf → Text × Conf
get_conf_str sec k conf =
    if is_empty sec || is_empty k then ([], conf) else (at k [] (at sec [] conf), touch sec k conf)

abbrev touch_section : Text → Conf → Conf
touch_section sec conf = insert sec (at sec [] conf) conf

unfoldable pub get_section_str : Text → Conf → Map Text Text × Conf
get_section_str sec conf =
    if is_empty sec then ([], conf) else (at sec [] conf, touch_section sec conf)

-- `sscanf` leaves the variable as it is where it reads no number (`junk`).
unfoldable pub get_conf_int : ℕ → Text → Text → Conf → ℕ × Conf
unfolding get_conf_str str2int
get_conf_int junk sec k conf =
    let (val, conf') = get_conf_str sec k conf in
    (if is_empty val then 0 else elim (str2int val) [ none ↦ junk | some n ↦ n ], conf')

-- The loop of the getter for a section keeps `val` from one key to the next.
unfoldable pub ints_of : ℕ → Map Text Text → Map Text ℕ
unfolding str2int
ints_of val [] = []
ints_of val ((k, text) ∷ it) =
    let read : ℕ = elim (str2int text) [ none ↦ val | some n ↦ n ] in (k, read) ∷ ints_of read it

unfoldable pub get_section_int : ℕ → Text → Conf → Map Text ℕ × Conf
unfolding get_section_str ints_of
get_section_int junk sec conf =
    let (vals, conf') = get_section_str sec conf in (ints_of junk vals, conf')

-- val == "on" || val == "1" || val == "yes"
abbrev pub is_on : Text → Bool
is_on val = same_key val (codes "on") || (same_key val (codes "1") || same_key val (codes "yes"))

unfoldable pub get_conf_bool : Text → Text → Conf → Bool × Conf
unfolding get_conf_str
get_conf_bool sec k conf = let (val, conf') = get_conf_str sec k conf in (is_on val, conf')

unfoldable pub get_section_bool : Text → Conf → Map Text Bool × Conf
unfolding get_section_str
get_section_bool sec conf =
    let (vals, conf') = get_section_str sec conf in
    (map (λ (e : Text × Text). (e.0, is_on e.1)) vals, conf')
