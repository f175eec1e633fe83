-- ===== src/Memcached/Tests.antt =====
-- The theorems on the extension of src/ext/memcached at concrete packets, and runs of its code.
use kvproxy.Base.{
  ◌≤◌, List, zero, suc, ◌+◌, ◌-◌, ◌≡◌, refl, true, none, some, [], ◌∷◌, arith, length, get_or,
}
use kvproxy.Base.Text.{Text, codes}
use kvproxy.Extension.{Resp, copy, Memory, ExtRet, success}
use kvproxy.Memcached.Opcode.{reads, cmd_getkq, cmd_noop, command}
use kvproxy.Memcached.Header.{Header, try_read_request_binary, is_binary_protocol}
use kvproxy.Memcached.Request.{Parse, Statics, Input, parse_req, read_header, create_req}
use kvproxy.Memcached.Response.{create_resp}
use kvproxy.Memcached.Response.Bounds.{create_resp-bounded}
use kvproxy.Memcached.Response.Order.{create_resp-in_order}
use kvproxy.Memcached.Request.Progress.{BodiesFit, Spins, parse_req-ends, parse_req-Spins}
use kvproxy.Memcached.Request.Packet.{Packet, IsPacket, encode}
use kvproxy.Memcached.Request.Stream.{stream, reqs, create_req-parse_req}

-- A buffer that holds these bytes, and zeros behind them.
abbrev buffer : Text → Memory
buffer bytes i = get_or bytes i 0

abbrev zero_header : Header
zero_header = record { keylen = 0; extlen = 0; bodylen = 0; opcode = 0 }

abbrev start : Parse
start = record { position = 0; req_data = []; header = zero_header }

abbrev binary_statics : Statics
binary_statics = record { init_use_binary = true; use_binary = true }

abbrev opaque_cas : Text
opaque_cas = 0 ∷ 0 ∷ 0 ∷ 7 ∷ 0 ∷ 0 ∷ 0 ∷ 0 ∷ 0 ∷ 0 ∷ 0 ∷ 0 ∷ []

-- A quiet get of the key "ab", and the no-op that closes the pipeline.
abbrev quiet : Packet
quiet = record {
  opcode = cmd_getkq;
  datatype = 0;
  reserved = 0;
  opaque_cas = opaque_cas;
  extras = [];
  key = codes "ab";
  value = [];
}

abbrev no_op : Packet
no_op = record quiet { opcode = cmd_noop; key = [] }

abbrev pipeline : Text
pipeline = stream (quiet ∷ []) no_op

quiet-IsPacket : IsPacket quiet
quiet-IsPacket = record {
  key = omega arith;
  extras = omega arith;
  opaque_cas = refl;
  body = omega arith;
}

no_op-IsPacket : IsPacket no_op
no_op-IsPacket = record {
  key = omega arith;
  extras = omega arith;
  opaque_cas = refl;
  body = omega arith;
}

create_req-parse_req_example :
    (s : Parse) × (parse_req 2 binary_statics (buffer pipeline) (length pipeline) start
      ≡ some (success, s))
    × (s.position ≡ length pipeline)
    × (s.req_data ≡ reqs 0 (quiet ∷ []) no_op (record reads { each = true; ext = 101 }))
    × (create_req (buffer pipeline) s.req_data [] ≡ (success, pipeline))
unfolding encode command
create_req-parse_req_example =
    create_req-parse_req (quiet ∷ []) no_op (record reads { each = true; ext = 101 }) binary_statics
      (buffer pipeline) zero_header (quiet-IsPacket, refl, tt) no_op-IsPacket refl refl refl
      (omega arith) (omega arith)

pipeline_run :
    parse_req 2 binary_statics (buffer pipeline) 50 start
    ≡ some (
      success,
      record {
        position = 50;
        req_data = reqs 0 (quiet ∷ []) no_op (record reads { each = true; ext = 101 });
        header = record zero_header { opcode = cmd_noop };
      },
    )
unfolding encode parse_req command read_header try_read_request_binary
pipeline_run = refl

abbrev pipeline_input : Input
pipeline_input = record { mem = buffer pipeline; size = 50; is_binary = true }

abbrev parsed : Parse
parsed = record {
  position = 50;
  req_data = reqs 0 (quiet ∷ []) no_op (record reads { each = true; ext = 101 });
  header = record zero_header { opcode = cmd_noop };
}

-- A quiet get of a key of two zero bytes.
abbrev small_get : Memory
small_get i = get_or (0x80 ∷ cmd_getkq ∷ 0 ∷ 2 ∷ 0 ∷ 0 ∷ 0 ∷ 0 ∷ 0 ∷ 0 ∷ 0 ∷ 2 ∷ []) i 0

small_get-BodiesFit : BodiesFit small_get 26
small_get-BodiesFit zero h m o = omega arith
small_get-BodiesFit (suc zero) h m o = omega arith
small_get-BodiesFit (suc (suc zero)) h m o = omega arith
small_get-BodiesFit (suc (suc (suc p))) h m o = absurd (omega arith)

parse_req-ends_example :
    (r : ExtRet × Parse) × (parse_req (26 - 0 + 1) binary_statics small_get 26 start ≡ some r)
parse_req-ends_example =
    parse_req-ends binary_statics small_get 26 start small_get-BodiesFit (omega arith) (omega arith)

-- A quiet get whose body has the length -24.
abbrev spinning_get : Memory
spinning_get i =
    get_or (0x80 ∷ cmd_getkq ∷ 0 ∷ 0 ∷ 0 ∷ 0 ∷ 0 ∷ 0 ∷ 0xff ∷ 0xff ∷ 0xff ∷ 0xe8 ∷ []) i 0

spinning_get-Spins : Spins (record { mem = spinning_get; size = 24; is_binary = true }) 0
spinning_get-Spins = record {
  binary = refl;
  size = omega arith;
  room = omega arith;
  magic = refl;
  opcode = refl;
  body = refl;
}

parse_req-Spins_example : parse_req 1000 binary_statics spinning_get 24 start ≡ none
unfolding is_binary_protocol
parse_req-Spins_example =
    parse_req-Spins 1000 binary_statics spinning_get 24 start refl refl spinning_get-Spins

-- The response to a no-op between two values, in a buffer of the bytes 'a', 'b' and so on.
abbrev answers : List Resp
answers =
    record { content = 0; content_len = 2; ext = 0 }
    ∷ record { content = 2; content_len = 1; ext = b'e' }
    ∷ record { content = 3; content_len = 2; ext = 0 }
    ∷ []

abbrev letters : Memory
letters i = 97 + i

create_resp-in_order_example : create_resp letters 10 answers [] ≡ (success, codes "abdec")
unfolding copy
create_resp-in_order_example =
    create_resp-in_order letters 10 answers [] (omega arith) (omega arith)

create_resp-bounded_example : length (create_resp letters 3 answers []).1 ≤ 3
create_resp-bounded_example =
    create_resp-bounded letters 3 answers [] (omega arith)
      (omega arith, (omega arith, (omega arith, tt))) (omega arith)
