-- ===== src/Memcached/Request.antt =====
-- PARSE_REQ, CREATE_REQ and CREATE_REQ_ASYNC of src/ext/memcached/memcached.cpp.
pub mod Rounds
pub mod Progress
pub mod Packet
pub mod Stream
pub mod Written
use kvproxy.Base.{
  ℕ, zero, suc, ◌+◌, ◌%◌, ◌^◌, Bool, true, false, not, Option, none, some, List, [], ◌∷◌, ◌++◌,
  length, ◌==◌, if◌then◌else◌,
}
use kvproxy.Base.Order.{text_ord}
use kvproxy.Base.Map.{same_key}
use kvproxy.Base.Word.{add32, sub32, slt32}
use kvproxy.Base.Text.{Text, codes}
use kvproxy.Extension.{Memory, ExtRet, again, success, error, ignore, Req, Comm, copy}
use kvproxy.Memcached.Opcode.{Flags, Command, accepted, ignored, refused, command}
use kvproxy.Memcached.Header.{
  Header, ReadRet, invalid, incomplete, complete, is_binary_protocol, try_read_request_binary,
  try_read_request_text,
}

-- What `parse_req` changes: *position, the list *req_data, and its local `header`.
pub record Parse : Type 0 where
  pub position : ℕ
  pub req_data : List Req
  pub header : Header

-- What is the same in every round: the buffer, its size, and the protocol.
pub record Input : Type 0 where
  pub mem : Memory
  pub size : ℕ
  pub is_binary : Bool

abbrev pub header_len : Input → ℕ
header_len i = if i.is_binary then 24 else 0

-- A round returns, or goes on to the next with `is_agin` set.
pub data Round : Type 0 where
  return : ExtRet → Parse → Round
  continue : Parse → Round

-- The request that the header describes, at the position.
unfoldable pub new_req : Input → Header → Flags → ℕ → Req
new_req i header flags position = record {
  key = add32 (add32 position (header_len i)) header.extlen;
  key_len = header.keylen % 2 ^ 16;
  content = position;
  content_len = add32 (header_len i) header.bodylen;
  update = flags.update;
  each = flags.each;
  ext = flags.ext;
}

unfoldable pub push_req : Input → Header → Flags → Parse → Parse
unfolding new_req
push_req i header flags s = record {
  position = add32 (add32 s.position (header_len i)) header.bodylen;
  req_data = s.req_data ++ new_req i header flags s.position ∷ [];
  header = header;
}

-- From the test on `size` to the end of the round.
unfoldable pub take_req : Input → Header → Flags → Parse → Round
unfolding push_req
take_req i header flags s =
    if slt32 i.size (add32 (header_len i) header.bodylen)
    then return again (record s { header = header })
    else if flags.more
    then continue (push_req i header flags s)
    else return success (push_req i header flags s)

unfoldable pub dispatch : Input → Command → Header → Parse → Round
unfolding take_req
dispatch i (accepted flags) header s = take_req i header flags s
dispatch i ignored header s = return ignore (record s { header = header })
dispatch i refused header s = return error (record s { header = header })

unfoldable pub on_read : Input → ReadRet × Header → Parse → Round
unfolding dispatch command
on_read i (invalid, header) s = return error (record s { header = header })
on_read i (incomplete, header) s = return again (record s { header = header })
on_read i (complete, header) s = dispatch i (command header.opcode) header s

-- The header at the position.
unfoldable pub read_header : Input → Parse → ReadRet × Header
read_header i s =
    let left = sub32 i.size s.position in
    if i.is_binary
    then try_read_request_binary i.mem s.position left s.header
    else try_read_request_text i.mem s.position left s.header

-- The body of `while(size-*position > 0)`.
unfoldable pub parse_round : Input → Parse → Round
unfolding on_read read_header
parse_round i s = on_read i (read_header i s) s

-- The loop, where the flag is `is_agin`; `none` means that the fuel ran out.
unfoldable pub parse_loop : ℕ → Input → Bool → Parse → Option (ExtRet × Parse)
unfolding parse_round
parse_loop zero i is_again s = none
parse_loop (suc fuel) i is_again s = elim (slt32 0 (sub32 i.size s.position)) [
  | false ↦ some (if is_again then again else success, s)
  | true ↦ elim (parse_round i s) [
    | return ret s' ↦ some (ret, s')
    | continue s' ↦ parse_loop fuel i true s'
  ]
]

-- The static variables of `parse_req`.
pub record Statics : Type 0 where
  pub init_use_binary : Bool
  pub use_binary : Bool

-- `proto` is get_conf("memcached", "proto"), which is read once.
unfoldable pub init_statics : Text → Statics → Statics
init_statics proto t = if t.init_use_binary then t else record {
  init_use_binary = true;
  use_binary = if same_key proto (codes "text") then false else t.use_binary;
}

abbrev same_bool : Bool → Bool → Bool
same_bool true b = b
same_bool false b = not b

-- memcached_parse_req, for the statics after their initialisation.
unfoldable pub parse_req : ℕ → Statics → Memory → ℕ → Parse → Option (ExtRet × Parse)
unfolding parse_loop is_binary_protocol
parse_req fuel t mem size s =
    let is_binary = is_binary_protocol mem in
    let parsed =
      parse_loop fuel (record { mem = mem; size = size; is_binary = is_binary }) false s in
    if same_bool t.use_binary is_binary then parsed else some (error, s)

-- The variables of `create_req`: the bytes written so far, whose number is *length, and the last
-- request that is marked 'e'.
pub record Output : Type 0 where
  pub bytes : Text
  pub last : Text

unfoldable pub create_req_loop : Memory → List Req → Output → Output
unfolding copy
create_req_loop mem [] o = o
create_req_loop mem (r ∷ req_data) o = create_req_loop mem req_data (
    if r.ext == b'e'
    then record o { last = copy mem r.content r.content_len }
    else record o { bytes = o.bytes ++ copy mem r.content r.content_len })

-- memcached_create_req: the bytes in req_data_to_backend. The function writes whatever the buffer's
-- size.
unfoldable pub create_req : Memory → List Req → Text → ExtRet × Text
unfolding create_req_loop
create_req mem req_data written =
    let o = create_req_loop mem req_data (record { bytes = written; last = [] }) in
    (success, o.bytes ++ o.last)

unfoldable pub create_req_async_loop : List Comm → Output → Output
create_req_async_loop [] o = o
create_req_async_loop (c ∷ req_data) o = create_req_async_loop req_data (
    if c.ext == b'e'
    then record o { last = c.content }
    else record o { bytes = o.bytes ++ c.content })

-- memcached_create_req_async
unfoldable pub create_req_async : List Comm → Text → ExtRet × Text
unfolding create_req_async_loop
create_req_async req_data written =
    let o = create_req_async_loop req_data (record { bytes = written; last = [] }) in
    (success, o.bytes ++ o.last)
