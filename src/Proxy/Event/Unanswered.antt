-- ===== src/Proxy/Event/Unanswered.antt =====
-- `readEvent` of src/kvproxy.cpp where no ring has a host.
use kvproxy.Base.{
  ℕ, suc, ◌+◌, ◌<◌, ◌≤◌, ◌≡◌, refl, ◌∙◌, ap, subst, Bool, true, false, ◌&&◌, Option, some, List, [],
  ◌∷◌, length, leb, ltb, ◌==◌, arith, if◌then◌else◌,
}
use kvproxy.Base.Text.{Text, codes}
use kvproxy.System.{System}
use kvproxy.Extension.{Memory, ExtRet, success, Req, Functions, store}
use kvproxy.Memcached.Opcode.{Flags, accepted, command, starts_at}
use kvproxy.Memcached.Header.{Header}
use kvproxy.Memcached.Request.{Statics}
use kvproxy.Memcached.Response.{create_resp, create_resp_loop}
use kvproxy.Memcached.Binding.{memcached, requests_of}
use kvproxy.Memcached.Request.Packet.{Packet, IsPacket, Holds}
use kvproxy.Memcached.Request.Stream.{stream, AllQuiet, create_req-parse_req, first_byte}
use kvproxy.Proxy.State.{st_limit}
use kvproxy.Proxy.Group.{Groups}
use kvproxy.Proxy.Backend.{Backend}
use kvproxy.Proxy.Backend.Talk.{talk_loop, talk_to_backend}
use kvproxy.Proxy.Event.{
  Evbuffer, Settings, Proxy, fast_buff_size, push_async, rings_of, answer, talk_sync, on_success,
  on_parsed, on_copied, read_event,
}
use kvproxy.Proxy.Group.Idle.{NoRing, create_req_group-IsIdle}

store-below : (q p : ℕ) (bytes : Text) (mem : Memory) → q < p → store p bytes mem q ≡ mem q
unfolding store
store-below q p [] mem l = refl
store-below q p (c ∷ bytes) mem l =
    let other : (q == p) ≡ false = ground arith in
    store-below q (p + 1) bytes _ (omega (arith, l)) ∙ rw other refl

store-Holds : (p : ℕ) (bytes : Text) (mem : Memory) → Holds (store p bytes mem) p bytes
unfolding store
store-Holds p [] mem = tt
store-Holds p (c ∷ bytes) mem =
    let next : p + 1 ≡ suc p = omega arith in
    let here : (p == p) ≡ true = ground arith in
    (
      store-below p (p + 1) bytes _ (omega arith) ∙ rw here refl,
      subst (λ q. Holds (store (p + 1) bytes (λ x. if x == p then c else mem x)) q bytes) next
          (store-Holds (p + 1) bytes _),
    )

module _ (sys : System) (ev : Evbuffer) (thread fuel : ℕ) (ext : Functions) (set : Settings) where
  talk_to_backend-nobody :
      (mem : Memory) (groups : Groups) (b : Backend sys)
      → groups ≡ []
      → (ext.create_resp b.resp_buf set.client_buf_size [] []).1 ≡ []
      → talk_to_backend sys thread fuel ext set.req_buf_size mem set.client_buf_size groups b
        ≡ some ([], b)
  unfolding talk_to_backend talk_loop
  talk_to_backend-nobody mem groups b e f = rw (talk_to_backend, e, f) refl

  -- What is left of the client's bytes and of the thread's list: nothing. One more request is counted.
  abbrev pub dropped : ℕ → Proxy sys ev → Proxy sys ev
  dropped size p = record p {
    read_buf = ev.drain size p.read_buf;
    st_req = if ltb p.st_req st_limit then p.st_req + 1 else p.st_req;
    position = 0;
    req_list_data = [];
  }

  on_success-dropped :
      (mem : Memory) (size : ℕ) (p : Proxy sys ev)
      → NoRing p.backend.hosts
      → (ext.create_resp p.backend.resp_buf set.client_buf_size [] []).1 ≡ []
      → on_success sys ev thread fuel ext set mem size p
        ≡ some (record p {
          read_buf = ev.drain size p.read_buf;
          st_req = if ltb p.st_req st_limit then p.st_req + 1 else p.st_req;
        })
  unfolding on_success push_async talk_sync answer
  on_success-dropped mem size p v e =
      let v =
        create_req_group-IsIdle (rings_of sys ev thread fuel ext set mem p.backend.hosts) v.hash
          v.hash_read v.hash_backup p.req_list_data in
      rw (on_success, v.group, talk_to_backend-nobody mem [] p.backend refl e, v.backup, v.sync)
        refl

  on_parsed-dropped :
      (mem : Memory) (size : ℕ) (position : ℕ) (list : List Req) (p : Proxy sys ev)
      → NoRing p.backend.hosts
      → (ext.create_resp p.backend.resp_buf set.client_buf_size [] []).1 ≡ []
      → on_parsed sys ev thread fuel ext set mem size (some (success, (position, list))) p
        ≡ some (dropped size p)
  unfolding on_parsed
  on_parsed-dropped mem size position list p v e =
      rw (on_success-dropped mem size (record p { position = position; req_list_data = list }) v e)
        refl

  read_event-parsed :
      (stack : Memory) (status : Text) (r : Option (ExtRet × (ℕ × List Req))) (p : Proxy sys ev)
      (q : Option (Proxy sys ev)) (bytes : Text)
      → ev.copyout (ev.get_length p.read_buf) p.read_buf ≡ bytes
      → ev.get_length p.read_buf ≤ fast_buff_size
      → (starts_at (store 0 bytes stack) 0 (codes "status") && leb (length bytes) 8) ≡ false
      → ext.parse_req (store 0 bytes stack) (length bytes) (p.position, p.req_list_data) ≡ r
      → on_parsed sys ev thread fuel ext set (store 0 bytes stack) (length bytes) r p ≡ q
      → read_event sys ev thread fuel ext set stack status p ≡ q
  unfolding read_event on_copied
  read_event-parsed stack status r p q bytes taken small other parsed run =
      let short : leb (ev.get_length p.read_buf) fast_buff_size ≡ true = ground arith in
      rw (short, taken, other, parsed) run

create_resp-none : (mem : Memory) (size : ℕ) → (create_resp mem size [] []).1 ≡ []
unfolding create_resp create_resp_loop
create_resp-none mem size = refl

not_status :
    (quiet : List Packet) (last : Packet) (mem : Memory) (short : Bool)
    → Holds mem 0 (stream quiet last)
    → (starts_at mem 0 (codes "status") && short) ≡ false
unfolding starts_at
not_status quiet last mem short h = rw (first_byte quiet last mem h) refl

-- No ring has a host, and the client has sent a whole pipeline of quiet gets and one closing packet with any
-- other command that is taken, of no more than 10240 bytes. Then readEvent ends: the bytes are taken out of the
-- client's buffer and one request is counted, but the client gets nothing, no host hears of the
-- pipeline and no request is kept for later. (`copyout` gives the bytes that the buffer holds.)
pub read_event-dropped :
    (sys : System) (ev : Evbuffer) (thread fuel : ℕ) (set : Settings) (t : Statics)
    (header : Header) (quiet : List Packet) (last : Packet) (f : Flags) (stack : Memory)
    (status : Text) (p : Proxy sys ev)
    → AllQuiet quiet
    → IsPacket last
    → command last.opcode ≡ accepted f
    → f.more ≡ false
    → t.use_binary ≡ true
    → ev.copyout (ev.get_length p.read_buf) p.read_buf ≡ stream quiet last
    → ev.get_length p.read_buf ≡ length (stream quiet last)
    → length (stream quiet last) ≤ fast_buff_size
    → p.position ≡ 0
    → p.req_list_data ≡ []
    → NoRing p.backend.hosts
    → let ext = memcached (suc (length quiet)) t header in
      read_event sys ev thread fuel ext set stack status p
      ≡ some (dropped sys ev thread fuel ext set (length (stream quiet last)) p)
unfolding memcached
read_event-dropped sys ev thread fuel set t header quiet last f stack status p q v c m bin bytes len
      short at_start none_listed idle =
    let mem = store 0 (stream quiet last) stack in
    let holds = store-Holds 0 (stream quiet last) stack in
    let (s, parsed, pos, list, _) =
      create_req-parse_req quiet last f t mem header q v c m bin holds (omega (arith, short)) in
    let ext = memcached (suc (length quiet)) t header in
    read_event-parsed sys ev thread fuel ext set stack status
      (some (success, (s.position, s.req_data))) p _ (stream quiet last) bytes
      (omega (arith, len, short)) (not_status quiet last mem _ holds)
      (rw (at_start, none_listed) (ap requests_of parsed))
      (on_parsed-dropped sys ev thread fuel ext set mem (length (stream quiet last)) s.position
        s.req_data p idle (create_resp-none p.backend.resp_buf set.client_buf_size))
