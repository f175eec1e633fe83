-- ===== src/Memcached/Header.antt =====
-- The readers of one header in src/ext/memcached/memcached.cpp. Numbers of type `int` are 32-bit
-- patterns. A reader is given what `header` holds before the call, for the fields that it leaves.
use kvproxy.Base.{
  ℕ, zero, suc, ◌+◌, ◌-◌, ◌*◌, ◌%◌, ◌^◌, Bool, ◌&&◌, ◌||◌, not, [], ◌∷◌, ◌++◌, length, ltb, ◌==◌,
  if◌then◌else◌,
}
use kvproxy.Base.Word.{add32, slt32}
use kvproxy.Base.Text.{Text, codes}
use kvproxy.Util.{read_digits, is_digit}
use kvproxy.Extension.{Memory}
use kvproxy.Memcached.Opcode.{get_opcode, starts_at}

-- memcached_header
pub record Header : Type 0 where
  pub keylen : ℕ
  pub extlen : ℕ
  pub bodylen : ℕ
  pub opcode : ℕ

-- The return codes -1, 0 and 1 of the readers.
pub data ReadRet : Type 0 where
  invalid incomplete complete : ReadRet

abbrev pub binary_req : ℕ
binary_req = 0x80

abbrev pub binary_res : ℕ
binary_res = 0x81

unfoldable pub is_binary_protocol : Memory → Bool
is_binary_protocol mem = mem 0 == binary_req || mem 0 == binary_res

-- ntohs and ntohl of the field at an offset.
abbrev pub word16 : Memory → ℕ → ℕ
word16 mem p = mem p * 256 + mem (add32 p 1)

abbrev pub word32 : Memory → ℕ → ℕ
word32 mem p = word16 mem p * 65536 + word16 mem (add32 p 2)

-- The fields of the 24-byte header, which requests and responses share.
unfoldable pub binary_header : Memory → ℕ → Header
binary_header mem p = record {
  keylen = word16 mem (add32 p 2);
  extlen = mem (add32 p 4);
  bodylen = word32 mem (add32 p 8);
  opcode = mem (add32 p 1);
}

unfoldable pub try_read_request_binary : Memory → ℕ → ℕ → Header → ReadRet × Header
unfolding binary_header
try_read_request_binary mem p size header =
    if slt32 size 24
    then (incomplete, header)
    else if not (mem p == binary_req)
    then (invalid, header)
    else (complete, binary_header mem p)

unfoldable pub try_read_response_binary : Memory → ℕ → ℕ → Header → ReadRet × Header
unfolding binary_header
try_read_response_binary mem p size header =
    if slt32 size 24
    then (incomplete, header)
    else if not (mem p == binary_res)
    then (invalid, header)
    else (complete, binary_header mem p)

-- `atoi` of at most ten digits.
unfoldable pub atoi : Text → ℕ
unfolding read_digits
atoi digits = read_digits 0 digits % 2 ^ 32

-- The variables of the loop of `try_read_request_text`, and `header->extlen`, which it sets. The
-- digits that `chr_data_len` holds are a list: `chr_data_len_i` is its length.
pub record Scan : Type 0 where
  pub split_counter : ℕ
  pub cmd_len : ℕ
  pub key_len : ℕ
  pub content_len : ℕ
  pub extlen : ℕ
  pub data_len : Text

pub data Round : Type 0 where
  next stop : Scan → Round

-- The body of the loop at character c, with index i. (`have_noreply` is set and never read.)
unfoldable pub scan_request_char : ℕ → ℕ → Scan → Round
scan_request_char i c s =
    if s.cmd_len == 0 && c == b' '
    then next (record s { cmd_len = i; extlen = i + 1; split_counter = s.split_counter + 1 })
    else if ltb 0 s.cmd_len && (s.key_len == 0 && c == b' ')
    then next (record s { key_len = i - s.extlen; split_counter = s.split_counter + 1 })
    else if ltb 0 s.cmd_len && (s.key_len == 0 && c == 13)
    then next (record s { key_len = i - s.extlen })
    else if ltb 0 s.cmd_len && (ltb 0 s.key_len && c == 10)
    then stop (record s { content_len = i + 1 })
    else if ltb 0 s.key_len && c == b'n'
    then stop s
    else if ltb 0 s.key_len && (c == b' ' && ltb s.split_counter 4)
    then next (record s { split_counter = s.split_counter + 1 })
    else if s.split_counter == 4 && (is_digit c && ltb (length s.data_len) 10)
    then next (record s { data_len = s.data_len ++ c ∷ [] })
    else next s

-- for(i = 0; i < size; i++), with n rounds left.
unfoldable pub scan_request : ℕ → Memory → ℕ → ℕ → Scan → Scan
unfolding scan_request_char
scan_request zero mem p i s = s
scan_request (suc n) mem p i s = elim (scan_request_char i (mem (add32 p i)) s) [
  | next s' ↦ scan_request n mem p (i + 1) s'
  | stop s' ↦ s'
]

-- How often a loop `for(i = 0; i < size; i++)` runs.
abbrev pub rounds : ℕ → ℕ
rounds size = if slt32 0 size then size else 0

abbrev pub body_length : ℕ → ℕ → ℕ
body_length content_len data_len =
    if slt32 0 data_len then add32 (add32 content_len data_len) 2 else add32 content_len data_len

abbrev pub scan_start : ℕ → Scan
scan_start extlen = record {
  split_counter = 0;
  cmd_len = 0;
  key_len = 0;
  content_len = 0;
  extlen = extlen;
  data_len = [];
}

unfoldable pub try_read_request_text : Memory → ℕ → ℕ → Header → ReadRet × Header
unfolding scan_request atoi
try_read_request_text mem p size header =
    let s = scan_request (rounds size) mem p 0 (scan_start header.extlen) in
    (
      complete,
      record {
        keylen = s.key_len;
        extlen = s.extlen;
        bodylen = body_length s.content_len (atoi s.data_len);
        opcode = get_opcode mem p;
      },
    )

-- The loop of `try_read_response_text`.
unfoldable pub scan_response_char : ℕ → ℕ → Scan → Round
scan_response_char i c s =
    if c == b' '
    then next (record s { split_counter = s.split_counter + 1 })
    else if c == 13
    then stop (record s { content_len = i + 2 })
    else if s.split_counter == 3 && (is_digit c && ltb (length s.data_len) 10)
    then next (record s { data_len = s.data_len ++ c ∷ [] })
    else next s

unfoldable pub scan_response : ℕ → Memory → ℕ → ℕ → Scan → Scan
unfolding scan_response_char
scan_response zero mem p i s = s
scan_response (suc n) mem p i s = elim (scan_response_char i (mem (add32 p i)) s) [
  | next s' ↦ scan_response n mem p (i + 1) s'
  | stop s' ↦ s'
]

-- content_len + value_len + 7
unfoldable pub value_body_len : Memory → ℕ → ℕ → ℕ
unfolding scan_response atoi
value_body_len mem p size =
    let s = scan_response (rounds size) mem p 0 (scan_start 0) in
    add32 (add32 s.content_len (atoi s.data_len)) 7

unfoldable pub try_read_response_text : Memory → ℕ → ℕ → Header → ReadRet × Header
unfolding value_body_len
try_read_response_text mem p size header =
    if slt32 size 5 || not (starts_at mem p (codes "VALUE"))
    then (complete, record header { bodylen = size; opcode = 0 })
    else if slt32 size (value_body_len mem p size)
    then (incomplete, header)
    else (complete, record header { bodylen = value_body_len mem p size; opcode = 0 })
