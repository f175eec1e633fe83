-- ===== src/Proxy/Backend.antt =====
-- `getConnection`, `writeToBackend`, `readFromBackend`, `talkToBackend` and `talkToBackendAsync` of
-- src/kvproxy.cpp, for one thread, of which the children have the theorems. The calls of the system are parameters (System).
pub mod Write
pub mod Talk
mod Tests
use kvproxy.Base.{
  ℕ, zero, suc, ◌+◌, Bool, true, false, Option, none, some, List, [], ◌∷◌, length, drop, leb, ◌==◌,
  if◌then◌else◌,
}
use kvproxy.Base.Order.{nat_ord}
use kvproxy.Base.Map.{Map, insert, at}
use kvproxy.Base.Word.{add32, sub32, slt32}
use kvproxy.Base.Text.{Text}
use kvproxy.System.{
  System, Sent, Selected, select_error, timed_out, selected, Received, received, recv_error,
}
use kvproxy.ConnPool
use kvproxy.ConnPool.{ConnList, destory_connection}
use kvproxy.Extension.{
  Memory, ExtRet, again, success, error, ignore, Req, Resp, Comm, Functions, store,
}
use kvproxy.Proxy.State.{Hosts, count_fail}

-- The hosts, the pool, the world, and the thread's buffers: what backend_buf holds, whose length is
-- backend_buf_len, and resp_buf with resp_buf_len.
pub record Backend (sys : System) : Type 0 where
  pub hosts : Hosts
  pub pool : ConnList
  pub world : sys.World
  pub backend_buf : Text
  pub resp_buf : Memory
  pub resp_buf_len : ℕ

-- Whether a list has an element, as `!empty()` tells.
abbrev pub is_nil {ℓ} : {A : Type ℓ} → List A → Bool
is_nil [] = true
is_nil (_ ∷ _) = false

-- What a round of a loop does: the loop goes on, is left by `break`, or returns.
pub data Turn (A : Type 0) : Type 0 where
  go_on leave back : A → Turn A

module _ (sys : System) (thread : ℕ) where
  -- KvProxy::getConnection. `host_alias[alias_index]` makes an entry where there is none.
  unfoldable pub get_connection : ℕ → Backend sys → ℕ × Backend sys
  get_connection a s =
      let (host, port) = at a ([], 0) s.hosts.host_alias in
      let (conn_fd, pool, world) = ConnPool.get_connection sys thread host port s.pool s.world in
      let hosts = record s.hosts { host_alias = insert a (host, port) s.hosts.host_alias } in
      (
        if slt32 0 conn_fd then conn_fd else 0,
        record s { hosts = hosts; pool = pool; world = world },
      )

  abbrev destory : ℕ → Backend sys → Backend sys
  destory conn_fd s =
      let (pool, world) = destory_connection sys conn_fd s.pool s.world in
      record s { pool = pool; world = world }

  -- The loop of writeToBackend, with send_len bytes sent, on fuel. It gives send_len, and the
  -- connection that it used last.
  unfoldable pub write_loop : ℕ → ℕ → Text → ℕ → ℕ → Backend sys → Option (ℕ × ℕ × Backend sys)
  unfolding get_connection
  write_loop zero a content send_len conn_fd s = none
  write_loop (suc fuel) a content send_len conn_fd s =
      let (sent, world) = sys.send conn_fd (drop send_len content) s.world in
      let s1 = record s { world = world } in
      let next = add32 send_len sent.ret_len in
      let rest = write_loop fuel a content next conn_fd s1 in
      let retry = write_loop fuel a content send_len conn_fd s1 in
      let (conn_fd', s2) = get_connection a (destory conn_fd s1) in
      let renewed = write_loop fuel a content send_len conn_fd' s2 in
      if slt32 0 sent.ret_len
      then (if slt32 next (length content) then rest else some (next, conn_fd, s1))
      else if sent.interrupted
      then retry
      else if conn_fd' == 0
      then some (0, conn_fd', s2)
      else renewed

  unfoldable pub write_to_backend : ℕ → ℕ → Text → ℕ → Backend sys → Option (ℕ × ℕ × Backend sys)
  unfolding write_loop
  write_to_backend fuel a content = write_loop fuel a content 0

  -- The variables of readFromBackend's loop: `pos` and the list.
  abbrev pub Reading : Type 0
  Reading = ℕ × List Resp × Backend sys

  -- After ptr_parse_resp.
  unfoldable pub on_parsed : ExtRet → ℕ × List Resp → Backend sys → Turn Reading
  on_parsed success (pos, resp_list) s = leave (0, resp_list, record s { resp_buf_len = 0 })
  on_parsed error (pos, resp_list) s = leave (0, [], record s { resp_buf_len = 0 })
  on_parsed again (pos, resp_list) s = go_on (pos, resp_list, s)
  on_parsed ignore (pos, resp_list) s = go_on (pos, resp_list, s)

  -- `none` where the parser does not return.
  unfoldable pub parse_received : Functions → ℕ → List Resp → Backend sys → Option (Turn Reading)
  unfolding on_parsed
  parse_received ext pos resp_list s =
      elim (ext.parse_resp s.resp_buf s.resp_buf_len (pos, resp_list)) [
        | none ↦ none
        | some (ret, r) ↦ some (on_parsed ret r s)
      ]

  -- After recv. A closed connection is destroyed, and the loop goes on with it.
  unfoldable pub on_received :
      Functions → ℕ → ℕ → Received → ℕ → List Resp → Backend sys → Option (Turn Reading)
  unfolding parse_received
  on_received ext size conn_fd (received []) pos resp_list s =
      some (go_on (pos, resp_list, destory conn_fd (record s { resp_buf_len = 0 })))
  on_received ext size conn_fd (received (c ∷ bytes)) pos resp_list s =
      let s1 = record s {
        resp_buf = store s.resp_buf_len (c ∷ bytes) s.resp_buf;
        resp_buf_len = add32 s.resp_buf_len (length (c ∷ bytes));
      } in
      let parsed = parse_received ext pos resp_list s1 in
      if slt32 s1.resp_buf_len size then parsed else some (back (pos, resp_list, s1))
  on_received ext size conn_fd (recv_error true) pos resp_list s = some (go_on (pos, resp_list, s))
  on_received ext size conn_fd (recv_error false) pos resp_list s = some (leave (pos, resp_list, s))

  -- After select.
  unfoldable pub on_selected :
      Functions → ℕ → ℕ → Selected → ℕ → List Resp → Backend sys → Option (Turn Reading)
  unfolding on_received
  on_selected ext size conn_fd (select_error true) pos resp_list s =
      some (go_on (pos, resp_list, s))
  on_selected ext size conn_fd (select_error false) pos resp_list s =
      some (leave (pos, resp_list, s))
  on_selected ext size conn_fd timed_out pos resp_list s = some (leave (pos, resp_list, s))
  on_selected ext size conn_fd (selected false) pos resp_list s = some (go_on (pos, resp_list, s))
  on_selected ext size conn_fd (selected true) pos resp_list s =
      let (got, world) = sys.recv conn_fd (sub32 size s.resp_buf_len) s.world in
      on_received ext size conn_fd got pos resp_list (record s { world = world })

  unfoldable pub read_loop :
      ℕ → Functions → ℕ → ℕ → ℕ → List Resp → Backend sys → Option (List Resp × Backend sys)
  unfolding on_selected
  read_loop zero ext size conn_fd pos resp_list s = none
  read_loop (suc fuel) ext size conn_fd pos resp_list s =
      let (bits, world) = sys.select conn_fd s.world in
      elim (on_selected ext size conn_fd bits pos resp_list (record s { world = world })) [
        | none ↦ none
        | some (go_on (pos', list', s')) ↦ read_loop fuel ext size conn_fd pos' list' s'
        | some (leave (pos', list', s')) ↦ some (list', record s' { resp_buf_len = 0 })
        | some (back (pos', list', s')) ↦ some (list', s')
      ]

  -- readFromBackend; `size` is resp_buf_size.
  unfoldable pub read_from_backend :
      ℕ → Functions → ℕ → ℕ → List Resp → Backend sys → Option (List Resp × Backend sys)
  unfolding read_loop
  read_from_backend fuel ext size conn_fd resp_list s =
      read_loop fuel ext size conn_fd 0 resp_list (record s { resp_buf_len = 0 })
