-- ===== src/Memcached/Response.antt =====
-- PARSE_RESP and CREATE_RESP of src/ext/memcached/memcached.cpp.
pub mod Bounds
pub mod Order
use kvproxy.Base.{
  ℕ, zero, suc, Bool, true, false, Option, none, some, List, [], ◌∷◌, ◌++◌, length, ltb, ◌==◌,
  if◌then◌else◌,
}
use kvproxy.Base.Word.{add32, sub32, slt32}
use kvproxy.Base.Text.{Text}
use kvproxy.Extension.{Memory, ExtRet, again, success, error, Resp, copy}
use kvproxy.Memcached.Opcode.{cmd_getkq, cmd_noop}
use kvproxy.Memcached.Header.{
  Header, ReadRet, invalid, incomplete, complete, is_binary_protocol, try_read_response_binary,
  try_read_response_text,
}
use kvproxy.Memcached.Request.{Input, header_len}

-- *position, *resp_data, and the local `header` and `is_agin`.
pub record ParseResp : Type 0 where
  pub position : ℕ
  pub resp_data : List Resp
  pub header : Header
  pub is_again : Bool

pub data Round : Type 0 where
  return : ExtRet → ParseResp → Round
  continue : ParseResp → Round

unfoldable pub push_resp : Input → Header → ParseResp → ParseResp
push_resp i header s = record {
  position = add32 (add32 s.position (header_len i)) header.bodylen;
  resp_data =
      s.resp_data
      ++ record {
        content = s.position;
        content_len = add32 (header_len i) header.bodylen;
        ext = if header.opcode == cmd_noop then b'e' else 0;
      }
        ∷ [];
  header = header;
  is_again = header.opcode == cmd_getkq;
}

unfoldable pub on_read : Input → ReadRet × Header → ParseResp → Round
unfolding push_resp
on_read i (invalid, header) s = return error (record s { header = header; is_again = false })
on_read i (incomplete, header) s = return again (record s { header = header; is_again = false })
on_read i (complete, header) s =
    if slt32 i.size (add32 (header_len i) header.bodylen)
    then return again (record s { header = header; is_again = false })
    else continue (push_resp i header s)

-- The header at the position.
unfoldable pub read_header : Input → ParseResp → ReadRet × Header
read_header i s =
    let left = sub32 i.size s.position in
    if i.is_binary
    then try_read_response_binary i.mem s.position left s.header
    else try_read_response_text i.mem s.position left s.header

-- The body of `while(size-*position > 0)`.
unfoldable pub parse_round : Input → ParseResp → Round
unfolding on_read read_header
parse_round i s = on_read i (read_header i s) s

unfoldable pub parse_loop : ℕ → Input → ParseResp → Option (ExtRet × ParseResp)
unfolding parse_round
parse_loop zero i s = none
parse_loop (suc fuel) i s = elim (slt32 0 (sub32 i.size s.position)) [
  | false ↦ some (if s.is_again then again else success, s)
  | true ↦ elim (parse_round i s) [
    | return ret s' ↦ some (ret, s')
    | continue s' ↦ parse_loop fuel i s'
  ]
]

-- memcached_parse_resp; `none` means that the fuel ran out.
unfoldable pub parse_resp : ℕ → Memory → ℕ → ParseResp → Option (ExtRet × ParseResp)
unfolding parse_loop is_binary_protocol
parse_resp fuel mem size s =
    parse_loop fuel (record { mem = mem; size = size; is_binary = is_binary_protocol mem }) s

-- The variables of `create_resp`: the bytes written, and the last response that is marked 'e'.
pub record Reply : Type 0 where
  pub bytes : Text
  pub last : Text
  pub end_len : ℕ

-- The test that guards each write: (*length) + content_len > *size, on `uint32_t`.
abbrev pub too_long : ℕ → ℕ → ℕ → Bool
too_long size written len = ltb size (add32 written len)

-- The loop; the flag says whether it returned ERROR.
unfoldable pub create_resp_loop : Memory → ℕ → List Resp → Reply → Bool × Reply
unfolding copy
create_resp_loop mem size [] o = (false, o)
create_resp_loop mem size (r ∷ resp_data) o =
    let kept =
      create_resp_loop mem size resp_data
        (record o { last = copy mem r.content r.content_len; end_len = r.content_len }) in
    let written =
      create_resp_loop mem size resp_data
        (record o { bytes = o.bytes ++ copy mem r.content r.content_len }) in
    if r.ext == b'e'
    then kept
    else if too_long size (length o.bytes) r.content_len
    then (true, o)
    else written

-- The last test, on `int`s: a sum that overflows is taken to wrap around.
abbrev pub too_long_int : ℕ → ℕ → ℕ → Bool
too_long_int size written len = slt32 size (add32 written len)

abbrev finish_resp : ℕ → Bool × Reply → ExtRet × Text
finish_resp size (true, o) = (error, o.bytes)
finish_resp size (false, o) =
    if o.end_len == 0
    then (success, o.bytes)
    else if too_long_int size (length o.bytes) o.end_len
    then (error, o.bytes)
    else (success, o.bytes ++ o.last)

-- memcached_create_resp: the return code, and the bytes in resp_data_to_client.
unfoldable pub create_resp : Memory → ℕ → List Resp → Text → ExtRet × Text
unfolding create_resp_loop
create_resp mem size resp_data written =
    finish_resp size
      (create_resp_loop mem size resp_data (record { bytes = written; last = []; end_len = 0 }))
