-- ===== src/Proxy/Event.antt =====
-- `readEvent`, `connectionEvent`, `closeEvent` and a round of `asyncReqThread` of src/kvproxy.cpp.
-- The buffers of a client's connection are libevent's: their calls are parameters.
pub mod Unanswered
mod Tests
use kvproxy.Base.{
  ℕ, zero, suc, ◌+◌, ◌*◌, Bool, true, false, ◌&&◌, Option, none, some, List, [], ◌∷◌, ◌++◌, length,
  leb, ltb, ◌==◌, if◌then◌else◌, map,
}
use kvproxy.Base.Map.{Map}
use kvproxy.Base.Word.{add32, sub32, slt32}
use kvproxy.Base.Text.{Text, codes}
use kvproxy.System.{System}
use kvproxy.Extension.{
  Memory, ExtRet, again, success, error, ignore, Req, Comm, Functions, copy, store,
}
use kvproxy.Memcached.Opcode.{starts_at}
use kvproxy.Proxy.State.{Hosts, st_limit}
use kvproxy.Proxy.Group.{Groups, Rings, Grouping, create_req_group}
use kvproxy.Proxy.Backend.{Backend}
use kvproxy.Proxy.Backend.Talk.{talk_to_backend, talk_to_backend_async}

-- evbuffer_get_length, evbuffer_drain, evbuffer_copyout and evbuffer_add.
pub record Evbuffer : Type 1 where
  pub Buffer : Type 0
  pub get_length : Buffer → ℕ
  pub drain : ℕ → Buffer → Buffer
  pub copyout : ℕ → Buffer → Text
  pub add : Text → Buffer → Buffer

-- req_group_async_t, and the queue async_req of them.
abbrev pub Queue : Type 0
Queue = List (Map ℕ (List Comm))

-- FAST_BUFF_SIZE
abbrev pub fast_buff_size : ℕ
fast_buff_size = 10240

-- The proxy's settings that readEvent reads: req_buf_size, client_buf_size, async_size and sync_str;
-- and whether pthread_mutex_lock gives the lock of the queue.
pub record Settings : Type 0 where
  pub req_buf_size : ℕ
  pub client_buf_size : ℕ
  pub async_size : ℕ
  pub sync_str : Text
  pub can_lock : Bool

-- The client's two buffers, and what the proxy keeps: position and req_list_data of the thread, its
-- req_buf, the queue, and the numbers of requests and of connections (st_req, st_conn).
pub record Proxy (sys : System) (ev : Evbuffer) : Type 0 where
  pub read_buf : ev.Buffer
  pub write_buf : ev.Buffer
  pub backend : Backend sys
  pub position : ℕ
  pub req_list_data : List Req
  pub req_buf : Memory
  pub async_req : Queue
  pub st_req : ℕ
  pub st_conn : ℕ

-- The items of the asynchronous groups: the requests' bytes, copied.
abbrev pub comms : Memory → List Req → List Comm
comms mem = map (λ (r : Req). record { content = copy mem r.content r.content_len; ext = r.ext })

unfoldable pub async_group : Memory → Groups → Map ℕ (List Comm)
async_group mem = map (λ (g : ℕ × List Req). (g.0, comms mem g.1))

module _ (sys : System) (ev : Evbuffer) (thread fuel : ℕ) (ext : Functions) (set : Settings) where
  abbrev clear_read_buf : ℕ → Proxy sys ev → Proxy sys ev
  clear_read_buf n p = record p { read_buf = ev.drain n p.read_buf }

  abbrev rings_of : Memory → Hosts → Rings
  rings_of mem h = record {
    hash = h.hash;
    hash_read = h.hash_read;
    hash_backup = h.hash_backup;
    sync_str = set.sync_str;
    mem = mem;
  }

  -- The queue gets the backup groups unless it is full or cannot be locked.
  unfoldable pub push_async : Memory → Groups → Proxy sys ev → Proxy sys ev
  unfolding async_group
  push_async mem backup p =
      if ltb 0 (length backup) && slt32 (length p.async_req) set.async_size
      then (if set.can_lock
          then record p { async_req = p.async_req ++ async_group mem backup ∷ [] }
          else p)
      else p

  -- The bytes for the client, if there are any.
  unfoldable pub answer : Text → Proxy sys ev → Proxy sys ev
  answer client_buf p =
      if ltb 0 (length client_buf)
      then record p { write_buf = ev.add client_buf p.write_buf }
      else p

  -- The sync groups are talked to at once, and their answer takes the place of the first one.
  unfoldable pub talk_sync : Memory → Groups → Text → Proxy sys ev → Option (Proxy sys ev)
  unfolding answer
  talk_sync mem sync client_buf p =
      if ltb 0 (length sync)
      then elim (talk_to_backend sys thread fuel ext set.req_buf_size mem set.client_buf_size sync
          p.backend) [
            | none ↦ none
            | some (reply, b) ↦ some (answer reply (record p { backend = b }))
          ]
      else some (answer client_buf p)

  -- What SUCCESS leads to, with `size` bytes copied from the client.
  unfoldable pub on_success : Memory → ℕ → Proxy sys ev → Option (Proxy sys ev)
  unfolding push_async talk_sync
  on_success mem size p =
      let p1 =
        clear_read_buf size
          (record p { st_req = if ltb p.st_req st_limit then p.st_req + 1 else p.st_req }) in
      let g = create_req_group (rings_of mem p.backend.hosts) p.req_list_data in
      elim (talk_to_backend sys thread fuel ext set.req_buf_size mem set.client_buf_size g.group
        p1.backend) [
          | none ↦ none
          | some (client_buf, b) ↦
              talk_sync mem g.sync client_buf (push_async mem g.backup (record p1 { backend = b }))
        ]

  abbrev forget : Proxy sys ev → Proxy sys ev
  forget p = record p { position = 0; req_list_data = [] }

  abbrev forgotten : Option (Proxy sys ev) → Option (Proxy sys ev)
  forgotten none = none
  forgotten (some p) = some (forget p)

  -- After ptr_parse_req.
  unfoldable pub on_parsed :
      Memory → ℕ → Option (ExtRet × (ℕ × List Req)) → Proxy sys ev → Option (Proxy sys ev)
  unfolding on_success
  on_parsed mem size none p = none
  on_parsed mem size (some (success, (position, reqs))) p =
      forgotten (on_success mem size (record p { position = position; req_list_data = reqs }))
  on_parsed mem size (some (error, r)) p = some (forget (clear_read_buf size p))
  on_parsed mem size (some (ignore, r)) p = some (forget (clear_read_buf size p))
  on_parsed mem size (some (again, r)) p = some (forget p)

  -- The bytes are in `mem`, and `status` is what getStatus answers.
  unfoldable pub on_copied : Memory → ℕ → Text → Proxy sys ev → Option (Proxy sys ev)
  unfolding on_parsed
  on_copied mem size status p =
      let parsed = on_parsed mem size (ext.parse_req mem size (p.position, p.req_list_data)) p in
      if starts_at mem 0 (codes "status") && leb size 8
      then some (clear_read_buf size (record p { write_buf = ev.add status p.write_buf }))
      else parsed

  -- readEvent. `stack` is what its local buffer holds before; a request that is too long is dropped.
  unfoldable pub read_event : Memory → Text → Proxy sys ev → Option (Proxy sys ev)
  unfolding on_copied store
  read_event stack status p =
      let buf_len = ev.get_length p.read_buf in
      let bytes = ev.copyout buf_len p.read_buf in
      let big = store 0 bytes p.req_buf in
      let from_stack = on_copied (store 0 bytes stack) (length bytes) status p in
      let from_heap = on_copied big (length bytes) status (record p { req_buf = big }) in
      if leb buf_len fast_buff_size
      then from_stack
      else if leb buf_len set.req_buf_size
      then from_heap
      else some (clear_read_buf buf_len p)

  -- connectionEvent and closeEvent, on an `int32_t`.
  unfoldable pub connection_event : Proxy sys ev → Proxy sys ev
  connection_event p = record p { st_conn = add32 p.st_conn 1 }

  unfoldable pub close_event : Proxy sys ev → Proxy sys ev
  close_event p = record p { st_conn = sub32 p.st_conn 1 }

  -- A round of asyncReqThread: it takes the whole queue, if it gets the lock, and talks to the hosts of each group. (Its
  -- thread index is the number of threads.)
  unfoldable pub async_loop : Queue → Backend sys → Option (Backend sys)
  async_loop [] b = some b
  async_loop (g ∷ queue) b = elim (talk_to_backend_async sys thread fuel ext set.req_buf_size g b) [
    | none ↦ none
    | some b' ↦ async_loop queue b'
  ]

  unfoldable pub async_round : Proxy sys ev → Option (Proxy sys ev)
  unfolding async_loop
  async_round p =
      let talked = async_loop p.async_req p.backend in
      if set.can_lock
      then (elim talked [ none ↦ none | some b ↦ some (record p { async_req = []; backend = b }) ])
      else some p
