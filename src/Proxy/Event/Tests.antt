-- ===== src/Proxy/Event/Tests.antt =====
-- The theorems on the events of src/kvproxy.cpp, with the memcached extension.
use kvproxy.Base.{◌≡◌, refl, true, some, [], ◌∷◌, ◌++◌, length, take, drop, arith}
use kvproxy.Base.Text.{Text, codes}
use kvproxy.System.Example.{steady}
use kvproxy.Extension.{Memory, store, Functions}
use kvproxy.Hash.{new_hash}
use kvproxy.Memcached.Opcode.{starts_at, reads, command, cmd_getkq, cmd_noop}
use kvproxy.Memcached.Header.{Header, is_binary_protocol, try_read_request_binary}
use kvproxy.Memcached.Request.{Statics, parse_req, read_header}
use kvproxy.Memcached.Binding.{memcached}
use kvproxy.Memcached.Request.Packet.{Packet, IsPacket, encode}
use kvproxy.Memcached.Request.Stream.{stream}
use kvproxy.Proxy.State.{Hosts}
use kvproxy.Proxy.Backend.{Backend}
use kvproxy.Proxy.Event.{Evbuffer, Settings, Proxy, read_event}
use kvproxy.Proxy.Event.Unanswered.{dropped, read_event-dropped}

-- A buffer as the bytes in it.
abbrev text_buffer : Evbuffer
text_buffer = record {
  Buffer = Text;
  get_length = length;
  drain = drop;
  copyout = take;
  add = λ t b. b ++ t;
}

abbrev ext : Functions
ext =
    memcached 100 (record { init_use_binary = true; use_binary = true })
      (record { keylen = 0; extlen = 0; bodylen = 0; opcode = 0 })

abbrev hosts : Hosts
hosts = record {
  host_alias = [];
  host_infos = [];
  host_offline = [];
  hosts_default = [];
  hosts_read = [];
  hosts_backup = [];
  hash = new_hash;
  hash_backup = new_hash;
  hash_read = new_hash;
  st_fail = [];
  st_cont_fail = [];
  alias_count = 0;
}

abbrev backend : Backend steady
backend = record {
  hosts = hosts;
  pool = [];
  world = (0, []);
  backend_buf = [];
  resp_buf = λ i. 0;
  resp_buf_len = 0;
}

abbrev settings : Settings
settings = record {
  req_buf_size = 20000;
  client_buf_size = 20000;
  async_size = 1;
  sync_str = [];
  can_lock = true;
}

-- The first three bytes of a header have come.
abbrev waiting : Proxy steady text_buffer
waiting = record {
  read_buf = 0x80 ∷ 0 ∷ 0 ∷ [];
  write_buf = [];
  backend = backend;
  position = 0;
  req_list_data = [];
  req_buf = λ i. 0;
  async_req = [];
  st_req = 0;
  st_conn = 1;
}

abbrev stack : Memory
stack i = 0

-- Nothing of an incomplete header is dropped.
refused_run : read_event steady text_buffer 0 5 ext settings stack [] waiting ≡ some waiting
unfolding read_event memcached parse_req is_binary_protocol try_read_request_binary read_header
    store starts_at
refused_run = refl

-- A quiet get of the key "k", and the no-op that closes the pipeline.
abbrev get_k : Packet
get_k = record {
  opcode = cmd_getkq;
  datatype = 0;
  reserved = 0;
  opaque_cas = 0 ∷ 0 ∷ 0 ∷ 1 ∷ 0 ∷ 0 ∷ 0 ∷ 0 ∷ 0 ∷ 0 ∷ 0 ∷ 0 ∷ [];
  extras = [];
  key = codes "k";
  value = [];
}

abbrev closing : Packet
closing = record get_k { opcode = cmd_noop; key = [] }

get_k-IsPacket : IsPacket get_k
get_k-IsPacket = record {
  key = omega arith;
  extras = omega arith;
  opaque_cas = refl;
  body = omega arith;
}

closing-IsPacket : IsPacket closing
closing-IsPacket = record {
  key = omega arith;
  extras = omega arith;
  opaque_cas = refl;
  body = omega arith;
}

abbrev with_pipeline : Proxy steady text_buffer
with_pipeline = record waiting { read_buf = stream (get_k ∷ []) closing }

abbrev statics : Statics
statics = record { init_use_binary = true; use_binary = true }

abbrev unset : Header
unset = record { keylen = 0; extlen = 0; bodylen = 0; opcode = 0 }

read_event-dropped_example :
    read_event steady text_buffer 0 5 (memcached 2 statics unset) settings stack [] with_pipeline
    ≡ some (
        dropped steady text_buffer 0 5
          (memcached 2 statics unset)
          settings
          (length (stream (get_k ∷ []) closing))
          with_pipeline)
unfolding encode command
read_event-dropped_example =
    read_event-dropped steady text_buffer 0 5 settings statics unset (get_k ∷ []) closing
      (record reads { each = true; ext = 101 }) stack [] with_pipeline (get_k-IsPacket, refl, tt)
      closing-IsPacket refl refl refl refl refl (omega arith) refl refl
      (record { hash = refl; hash_read = refl; hash_backup = refl })
