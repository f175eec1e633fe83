-- ===== src/Proxy/Backend/Talk/Unreachable.antt =====
-- What the loop of `talkToBackend` in src/kvproxy.cpp leaves when hosts cannot be reached.
use mathlib.Core.List.{append-nil, append_assoc}
use kvproxy.Base.{
  ℕ, ◌≡◌, ◌≢◌, refl, sym, ◌∙◌, ap, inl, inr, true, false, some, List, [], ◌∷◌, ◌++◌, length,
  length-append, ◌==◌, arith, Bool-cases,
}
use kvproxy.Base.Order.{nat_ord, text_ord}
use kvproxy.Base.Map.{Map, at}
use kvproxy.Base.Word.{slt32}
use kvproxy.Base.Text.{Text}
use kvproxy.System.{System}
use kvproxy.ConnPool
use kvproxy.ConnPool.{ConnList, conn_at, set_conn, minus_one, create_connection}
use kvproxy.ConnPool.Slots.{same_slot, conn_at-set_conn}
use kvproxy.Extension.{Memory, success, Req, Resp, Functions}
use kvproxy.Memcached.Request.{create_req}
use kvproxy.Memcached.Request.Written.{create_req-written}
use kvproxy.Proxy.State.{count_fail}
use kvproxy.Proxy.Backend.{Backend, get_connection}
use kvproxy.Proxy.Backend.Talk.{talk_host, talk_loop, on_connected}

-- No host accepts a connection.
abbrev pub IsDown : System → Type 0
IsDown sys =
    (fd : ℕ) (host : Text) (port : ℕ) (w : sys.World) → (sys.connect fd host port w).0 ≡ false

-- No slot of the pool holds an open connection.
abbrev pub AllClosed : ConnList → Type 0
AllClosed m = (id : ℕ) (host : Text) (port : ℕ) → slt32 0 (conn_at id host port m) ≡ false

set_conn-AllClosed :
    (id : ℕ) (host : Text) (port c : ℕ) (m : ConnList)
    → slt32 0 c ≡ false
    → AllClosed m
    → AllClosed (set_conn id host port c m)
set_conn-AllClosed id host port c m closed all j h q =
    let here = conn_at-set_conn id host port c j h q m in
    elim (Bool-cases (same_slot id host port j h q)) [
      | inl same ↦ ap (slt32 0) (rw same at here) ∙ closed
      | inr other ↦ ap (slt32 0) (rw other at here) ∙ all j h q
    ]

create_connection-IsDown :
    (sys : System) (host : Text) (port : ℕ) (w : sys.World)
    → IsDown sys
    → (create_connection sys host port w).0 ≡ minus_one
unfolding create_connection
create_connection-IsDown sys host port w down = elim (Bool-cases (slt32 (sys.socket w).0 0)) [
  | inl bad ↦ rw bad
  | inr good ↦ rw (good, down (sys.socket w).0 host port (sys.socket w).1)
]

pool-IsDown :
    (sys : System) (id : ℕ) (host : Text) (port : ℕ) (m : ConnList) (w : sys.World)
    → IsDown sys
    → AllClosed m
    → let r = ConnPool.get_connection sys id host port m w in (slt32 0 r.0 ≡ false) × AllClosed r.1
unfolding ConnPool.get_connection
pool-IsDown sys id host port m w down closed = elim (Bool-cases (sys.rdlock w).0) [
  | inr busy ↦ rw busy (refl, closed)
  | inl read ↦ elim (Bool-cases (sys.wrlock (sys.unlock (sys.rdlock w).1)).0) [
    | inl write ↦
        let refused =
          create_connection-IsDown sys host port (sys.wrlock (sys.unlock (sys.rdlock w).1)).1
            down in
        rw (read, closed id host port, write, refused)
          (refl, set_conn-AllClosed id host port minus_one m refl closed)
    | inr busy ↦
        rw (read, closed id host port, busy)
          (
            refl,
            set_conn-AllClosed id host port (conn_at id host port m) m (closed id host port) closed,
          )
  ]
]

get_connection-IsDown :
    (sys : System) (thread a : ℕ) (s : Backend sys)
    → IsDown sys
    → AllClosed s.pool
    → let r = get_connection sys thread a s in
      (r.0 ≡ 0) × (r.1.backend_buf ≡ s.backend_buf) × AllClosed r.1.pool
unfolding get_connection
get_connection-IsDown sys thread a s down closed =
    let host = at a ([], 0) s.hosts.host_alias in
    let (none_open, pool) = pool-IsDown sys thread host.0 host.1 s.pool s.world down closed in
    (rw none_open, refl, pool)

-- The bytes that the extension writes for one group of requests.
abbrev pub message : Memory → List Req → Text
message mem reqs = (create_req mem reqs []).1

abbrev pub messages : Memory → Map ℕ (List Req) → Text
messages mem [] = []
messages mem ((a, reqs) ∷ it) = message mem reqs ++ messages mem it

-- Each group has bytes to send.
abbrev pub AllSend : Memory → Map ℕ (List Req) → Type 0
AllSend mem [] = Unit
AllSend mem ((a, reqs) ∷ it) = (message mem reqs ≢ []) × AllSend mem it

not_empty : (first rest : Text) → rest ≢ [] → (length (first ++ rest) == 0) ≡ false
not_empty first [] n = absurd (n refl)
not_empty first (c ∷ rest) n = ground (arith, length-append first (c ∷ rest))

module _ (sys : System) (thread fuel : ℕ) (ext : Functions) (size : ℕ) (mem : Memory) where
  talk_host-IsDown :
      (a : ℕ) (reqs : List Req) (list : List Resp) (s : Backend sys)
      → IsDown sys
      → AllClosed s.pool
      → message mem reqs ≢ []
      → (s' : Backend sys) × (talk_host sys thread fuel ext size (create_req mem) a reqs list s
          ≡ some (list, s'))
        × (s'.backend_buf ≡ s.backend_buf ++ message mem reqs)
        × AllClosed s'.pool
  unfolding talk_host on_connected
  talk_host-IsDown a reqs list s down closed n =
      let s1 : Backend sys = record s { backend_buf = s.backend_buf ++ message mem reqs } in
      let (no_conn, buf, pool) = get_connection-IsDown sys thread a s1 down closed in
      let r = (get_connection sys thread a s1).1 in
      (
        record r { hosts = count_fail true a r.hosts },
        rw (
          create_req-written mem reqs s.backend_buf,
          not_empty s.backend_buf (message mem reqs) n,
          no_conn,
        ),
        buf,
        pool,
      )

  -- Where no host accepts a connection, the pool holds none, and each group has bytes to send, the
  -- loop of talkToBackend comes to its end with the bytes for all groups in the thread's buffer,
  -- one message behind the other, and the extension writes the message for the next group behind
  -- them.
  pub talk_loop-unreachable :
      (groups : Map ℕ (List Req)) (next : List Req) (list : List Resp) (s : Backend sys)
      → IsDown sys
      → AllClosed s.pool
      → AllSend mem groups
      → (s' : Backend sys) × (talk_loop sys thread fuel ext size (create_req mem) groups list s
          ≡ some (list, s'))
        × (s'.backend_buf ≡ s.backend_buf ++ messages mem groups)
        × (create_req mem next s'.backend_buf
            ≡ (success, (s.backend_buf ++ messages mem groups) ++ message mem next))
  unfolding talk_loop
  talk_loop-unreachable groups next list s down closed sends =
      let (s', run, buf) = left groups s closed sends in
      (
        s',
        run,
        buf,
        create_req-written mem next s'.backend_buf ∙ ap (λ b. (success, b ++ message mem next)) buf,
      )
    where
      left :
          (groups : Map ℕ (List Req)) (s : Backend sys)
          → AllClosed s.pool
          → AllSend mem groups
          → (s' : Backend sys) × (talk_loop sys thread fuel ext size (create_req mem) groups list s
              ≡ some (list, s'))
            × (s'.backend_buf ≡ s.backend_buf ++ messages mem groups)
      left [] s closed sends = (s, refl, sym (append-nil s.backend_buf))
      left ((a, reqs) ∷ it) s closed (n, sends) =
          let (s1, host, buf, closed1) = talk_host-IsDown a reqs list s down closed n in
          let (s2, run, all) = left it s1 closed1 sends in
          (
            s2,
            rw (talk_loop, host) run,
            all
                ∙ ap (λ b. b ++ messages mem it) buf
                ∙ append_assoc s.backend_buf (message mem reqs) (messages mem it),
          )
