-- ===== src/Proxy/Status.antt =====
-- `getStatus` of src/kvproxy.cpp: the text that answers the command "status".
pub mod Report
mod Tests
use kvproxy.Base.{
  ℕ, ◌+◌, ◌-◌, ◌/◌, ◌%◌, ◌^◌, Bool, true, false, [], ◌∷◌, ◌++◌, length, ltb, if◌then◌else◌,
}
use kvproxy.Base.Order.{nat_ord}
use kvproxy.Base.Map.{Map, insert, at}
use kvproxy.Base.Word.{add32, slt32}
use kvproxy.Base.Text.{Text, codes}
use kvproxy.Util.{int2str}
use kvproxy.System.{System}
use kvproxy.ConnPool.{ConnList, get_connection_size}
use kvproxy.Proxy.State.{Hosts, st_limit}
use kvproxy.Proxy.Event.{Queue}

-- host_alias[a], which makes an entry where there is none.
abbrev pub Aliases : Type 0
Aliases = Map ℕ (Text × ℕ)

abbrev pub alias_at : ℕ → Aliases → Text × ℕ
alias_at a m = at a ([], 0) m

abbrev pub touch_alias : ℕ → Aliases → Aliases
touch_alias a m = insert a (alias_at a m) m

-- "  - host:port [what]\n"
abbrev pub host_line : Text × ℕ → Text → Text
host_line (host, port) what =
    codes "  - " ++ (host ++ (b':' ∷ (int2str port ++ (codes " [" ++ (what ++ b']' ∷ b'\n' ∷ [])))))

-- The loops over st_fail and st_cont_fail: host_alias, the lines and the total.
unfoldable pub fail_loop : Map ℕ ℕ → Aliases → Text → ℕ → Aliases × Text × ℕ
fail_loop [] m str total = (m, str, total)
fail_loop ((a, n) ∷ it) m str total =
    fail_loop it (touch_alias a m) (str ++ host_line (alias_at a m) (int2str n)) (add32 total n)

-- The loop over host_offline.
unfoldable pub offline_loop : Map ℕ Bool → Aliases → Text → ℕ → Aliases × Text × ℕ
offline_loop [] m str total = (m, str, total)
offline_loop ((a, offline) ∷ it) m str total =
    let more = str ++ host_line (alias_at a m) (codes "offline") in
    offline_loop it (if offline then touch_alias a m else m) (if offline then more else str)
      (if offline then add32 total 1 else total)

-- "text [value]\n"
abbrev pub entry : Text → Text → Text
entry text value = text ++ (codes " [" ++ (value ++ b']' ∷ b'\n' ∷ []))

-- An `int` divided by 1000.
abbrev pub thousandth : ℕ → ℕ
thousandth n = if slt32 n 0 then (2 ^ 32 - (2 ^ 32 - n) / 1000) % 2 ^ 32 else n / 1000

-- What getStatus reads and changes.
pub record Counters (sys : System) : Type 0 where
  pub hosts : Hosts
  pub st_req : ℕ
  pub st_conn : ℕ
  pub conn_pool : ConnList
  pub recv_timeout : ℕ
  pub async_req : Queue
  pub world : sys.World

abbrev pub requests : ℕ → Text
requests st_req = if ltb st_req st_limit then int2str st_req else int2str st_req ++ b'+' ∷ []

-- The text, from what the three loops and the pool answer.
unfoldable pub content : Text → Text → ℕ → Text → ℕ → Text → ℕ → ℕ → ℕ → ℕ → ℕ → Text
content reqs failed_lines failed cont_lines cont offline_lines offline conns pool timeout queue =
    b'\n' ∷ entry (codes "Number of processed requests") reqs
    ++ (entry (codes "Number of requests failed") (int2str failed)
        ++ (failed_lines
            ++ (entry (codes "Number of continuous requests failed") (int2str cont)
                ++ (cont_lines
                    ++ (codes "All of offline hosts ["
                        ++ (int2str offline
                            ++ (codes "] \n"
                                ++ (offline_lines
                                    ++ (entry (codes "Number of client connection") (int2str conns)
                                        ++ (entry (codes "Number of backend connection")
                                              (int2str pool)
                                            ++ (entry (codes "Read timeout of backend connection")
                                                  (int2str timeout ++ codes "ms")
                                                ++ (entry (codes "Size of async queue")
                                                      (int2str queue)
                                                    ++ b'\n' ∷ []))))))))))))

module _ (sys : System) where
  -- getStatus. A number of connections below zero is set to 0.
  unfoldable pub get_status : Counters sys → Text × Counters sys
  unfolding fail_loop offline_loop content get_connection_size
  get_status c =
      let (m1, failed_lines, failed) = fail_loop c.hosts.st_fail c.hosts.host_alias [] 0 in
      let (m2, cont_lines, cont) = fail_loop c.hosts.st_cont_fail m1 [] 0 in
      let (m3, offline_lines, offline) = offline_loop c.hosts.host_offline m2 [] 0 in
      let conns = if slt32 c.st_conn 0 then 0 else c.st_conn in
      let (pool, world) = get_connection_size sys c.conn_pool c.world in
      (
        content (requests c.st_req) failed_lines failed cont_lines cont offline_lines offline conns
            pool (thousandth c.recv_timeout) (length c.async_req % 2 ^ 32),
        record c { hosts = record c.hosts { host_alias = m3 }; st_conn = conns; world = world },
      )
