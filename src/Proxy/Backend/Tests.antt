-- ===== src/Proxy/Backend/Tests.antt =====
-- The theorems on the talk with the hosts in src/kvproxy.cpp, with the memcached extension.
use kvproxy.Base.{ℕ, ◌+◌, ◌≡◌, refl, true, false, some, List, [], ◌∷◌, ◌++◌, arith}
use kvproxy.Base.Order.{nat_ord}
use kvproxy.Base.Map.{Map}
use kvproxy.Base.Text.{codes}
use kvproxy.System.{System}
use kvproxy.System.Example.{steady}
use kvproxy.Extension.{Memory, success, Req, Functions}
use kvproxy.Hash.{new_hash}
use kvproxy.Memcached.Request.{create_req}
use kvproxy.Memcached.Binding.{memcached}
use kvproxy.Proxy.State.{Hosts}
use kvproxy.Proxy.Backend.{Backend, write_to_backend}
use kvproxy.Proxy.Backend.Write.{write_to_backend-ends}
use kvproxy.Proxy.Backend.Talk.{talk_loop}
use kvproxy.Proxy.Backend.Talk.Unreachable.{message, messages, talk_loop-unreachable}

abbrev ext : Functions
ext =
    memcached 100 (record { init_use_binary = true; use_binary = false })
      (record { keylen = 0; extlen = 0; bodylen = 0; opcode = 0 })

abbrev hosts : Hosts
hosts = record {
  host_alias = (1, (codes "a", 11211)) ∷ (2, (codes "b", 11211)) ∷ [];
  host_infos = [];
  host_offline = [];
  hosts_default = [];
  hosts_read = [];
  hosts_backup = [];
  hash = new_hash;
  hash_backup = new_hash;
  hash_read = new_hash;
  st_fail = [];
  st_cont_fail = (1, 4) ∷ [];
  alias_count = 2;
}

abbrev start : {sys : System} → sys.World → Backend sys
start w = record {
  hosts = hosts;
  pool = [];
  world = w;
  backend_buf = [];
  resp_buf = λ i. 0;
  resp_buf_len = 0;
}

write_to_backend-ends_example :
    (w : _) × (write_to_backend steady 0 3 1 (codes "get") 10 (start (0, []))
      ≡ some (3, 10, start {sys = steady} w))
write_to_backend-ends_example =
    write_to_backend-ends steady 0 1 (codes "get") 10 (start (0, []))
      (λ fd content w full. (full, omega arith)) (omega arith) (omega arith)

-- Nothing can be connected to.
abbrev down : System
down = record steady { connect = λ fd host port w. (false, w) }

abbrev req_at : ℕ → Req
req_at p = record {
  key = p;
  key_len = 1;
  content = p;
  content_len = 2;
  update = false;
  each = false;
  ext = 0;
}

-- Four requests of two bytes, one behind the other, of which the first two are for host 1.
abbrev groups : Map ℕ (List Req)
groups = (1, req_at 0 ∷ req_at 2 ∷ []) ∷ []

abbrev for_host_two : List Req
for_host_two = req_at 4 ∷ []

abbrev buffer : Memory
buffer i = 97 + i

talk_loop-unreachable_example :
    (s' : Backend down) × (talk_loop down 0 5 ext 100 (create_req buffer) groups [] (start (0, []))
      ≡ some ([], s'))
    × (s'.backend_buf ≡ messages buffer groups)
    × (create_req buffer for_host_two s'.backend_buf
        ≡ (success, messages buffer groups ++ message buffer for_host_two))
unfolding create_req
talk_loop-unreachable_example =
    talk_loop-unreachable down 0 5 ext 100 buffer groups for_host_two [] (start (0, []))
      (λ fd host port w. refl) (λ id host port. refl) ((λ e. cc), tt)
