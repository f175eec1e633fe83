-- ===== src/Proxy/Backend/Talk.antt =====
-- `talkToBackend` and `talkToBackendAsync` of src/kvproxy.cpp: what happens with one host after the
-- other.
pub mod Unreachable
use kvproxy.Base.{
  ℕ, Bool, true, false, ◌&&◌, not, Option, none, some, List, [], ◌∷◌, length, ◌==◌, if◌then◌else◌,
}
use kvproxy.Base.Map.{Map}
use kvproxy.Base.Word.{slt32}
use kvproxy.Base.Text.{Text}
use kvproxy.System.{System}
use kvproxy.Extension.{Memory, ExtRet, again, success, error, ignore, Req, Resp, Comm, Functions}
use kvproxy.Proxy.State.{count_fail}
use kvproxy.Proxy.Backend.{Backend, is_nil, get_connection, write_to_backend, read_from_backend}

abbrev pub is_success : ExtRet → Bool
is_success success = true
is_success again = false
is_success error = false
is_success ignore = false

module _ (sys : System) (thread : ℕ) (fuel : ℕ) (ext : Functions) (size : ℕ) where
  -- What a host's part of the loop gives: the list of responses, and the state.
  abbrev pub Talked : Type 0
  Talked = Option (List Resp × Backend sys)

  abbrev count : Bool → ℕ → Backend sys → Backend sys
  count is_fail a s = record s { hosts = count_fail is_fail a s.hosts }

  abbrev reset : Backend sys → Backend sys
  reset s = record s { backend_buf = [] }

  -- After readFromBackend.
  unfoldable pub on_read : ℕ → Option (List Resp × Backend sys) → Talked
  on_read a none = none
  on_read a (some (resp_list, s)) = some (resp_list, reset (count (is_nil resp_list) a s))

  -- After writeToBackend.
  unfoldable pub on_written : ℕ → ℕ → List Resp → Option (ℕ × ℕ × Backend sys) → Talked
  unfolding on_read
  on_written a len resp_list none = none
  on_written a len resp_list (some (send_len, conn_fd, s)) =
      if not (slt32 send_len len)
      then on_read a (read_from_backend sys thread fuel ext size conn_fd resp_list s)
      else if not (slt32 0 send_len)
      then some (resp_list, reset (count true a s))
      else some (resp_list, reset s)

  -- After getConnection. Where there is none, `continue` leaves backend_buf_len as it is.
  unfoldable pub on_connected : ℕ → List Resp → ℕ × Backend sys → Talked
  unfolding on_written
  on_connected a resp_list (conn_fd, s) =
      if conn_fd == 0
      then some (resp_list, count true a s)
      else on_written a (length s.backend_buf) resp_list
          (write_to_backend sys thread fuel a s.backend_buf conn_fd s)

  -- The loop's body, for both functions: `create` is the extension's writer on what the group holds.
  unfoldable pub talk_host :
      {R : Type 0} (create : R → Text → ExtRet × Text) → ℕ → R → List Resp → Backend sys → Talked
  unfolding on_connected
  talk_host create a reqs resp_list s =
      let (ret, buf) = create reqs s.backend_buf in
      let s1 = record s { backend_buf = buf } in
      if is_success ret && not (length buf == 0)
      then on_connected a resp_list (get_connection sys thread a s1)
      else some (resp_list, reset s1)

  unfoldable pub talk_loop :
      {R : Type 0} (create : R → Text → ExtRet × Text) → Map ℕ R → List Resp → Backend sys → Talked
  unfolding talk_host
  talk_loop create [] resp_list s = some (resp_list, s)
  talk_loop create ((a, reqs) ∷ it) resp_list s = elim (talk_host create a reqs resp_list s) [
    | none ↦ none
    | some (list', s') ↦ talk_loop create it list' s'
  ]

  -- talkToBackend: the bytes for the client, which the extension writes from resp_buf in the end, and
  -- the state. `mem` is the client's buffer, and `client_size` the size of client_buf.
  unfoldable pub talk_to_backend :
      Memory → ℕ → Map ℕ (List Req) → Backend sys → Option (Text × Backend sys)
  unfolding talk_loop
  talk_to_backend mem client_size groups s = elim (talk_loop (ext.create_req mem) groups [] s) [
    | none ↦ none
    | some (resp_list, s') ↦ some ((ext.create_resp s'.resp_buf client_size resp_list []).1, s')
  ]

  -- talkToBackendAsync, which leaves the responses.
  unfoldable pub talk_to_backend_async : Map ℕ (List Comm) → Backend sys → Option (Backend sys)
  unfolding talk_loop
  talk_to_backend_async groups s = elim (talk_loop ext.create_req_async groups [] s) [
    | none ↦ none
    | some (resp_list, s') ↦ some s'
  ]
