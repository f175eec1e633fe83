-- ===== src/ConnPool.antt =====
-- src/conn_pool.h and src/conn_pool.cpp: the pool of connections to the hosts, by thread, host and
-- port. The value 0 stands for a connection that was destroyed.
pub mod Slots
pub mod Owned
mod Tests
use kvproxy.Base.{
  ℕ, zero, suc, ◌+◌, ◌-◌, ◌^◌, Bool, true, false, [], ◌∷◌, ◌==◌, if◌then◌else◌, length, ltb,
}
use kvproxy.Base.Order.{nat_ord, text_ord}
use kvproxy.Base.Map.{Map, insert, at}
use kvproxy.Base.Word.{slt32}
use kvproxy.Base.Text.{Text}
use kvproxy.System.{System}

-- conn_list
abbrev pub ConnList : Type 0
ConnList = Map ℕ (Map Text (Map ℕ ℕ))

-- conn_list[id][host][port]: the value, and the assignment of one. Both make the entries that are
-- missing, with 0 for a value.
abbrev pub conn_at : ℕ → Text → ℕ → ConnList → ℕ
conn_at id host port m = at port 0 (at host [] (at id [] m))

abbrev pub set_conn : ℕ → Text → ℕ → ℕ → ConnList → ConnList
set_conn id host port conn m =
    insert id (insert host (insert port conn (at host [] (at id [] m))) (at id [] m)) m

abbrev pub touch_conn : ℕ → Text → ℕ → ConnList → ConnList
touch_conn id host port m = set_conn id host port (conn_at id host port m) m

-- -1 as an `int`
abbrev pub minus_one : ℕ
minus_one = 2 ^ 32 - 1

-- The loops of `destoryConnection`: the innermost stops at the first hit, the others go on.
unfoldable pub clear_ports : ℕ → Map ℕ ℕ → Map ℕ ℕ
clear_ports conn [] = []
clear_ports conn ((port, c) ∷ it) =
    let rest = clear_ports conn it in if c == conn then (port, 0) ∷ it else (port, c) ∷ rest

unfoldable pub clear_hosts : ℕ → Map Text (Map ℕ ℕ) → Map Text (Map ℕ ℕ)
unfolding clear_ports
clear_hosts conn [] = []
clear_hosts conn ((host, ports) ∷ it) = (host, clear_ports conn ports) ∷ clear_hosts conn it

unfoldable pub clear_conn : ℕ → ConnList → ConnList
unfolding clear_hosts
clear_conn conn [] = []
clear_conn conn ((id, hosts) ∷ it) = (id, clear_hosts conn hosts) ∷ clear_conn conn it

-- The loops of `getConnectionSize`, which count every entry.
unfoldable pub count_hosts : Map Text (Map ℕ ℕ) → ℕ
count_hosts [] = 0
count_hosts ((host, ports) ∷ it) = length ports + count_hosts it

unfoldable pub count_conns : ConnList → ℕ
unfolding count_hosts
count_conns [] = 0
count_conns ((id, hosts) ∷ it) = count_hosts hosts + count_conns it

module _ (sys : System) where
  -- createConnection. A socket that cannot connect stays open.
  unfoldable pub create_connection : Text → ℕ → sys.World → ℕ × sys.World
  create_connection host port w =
      let (sock_fd, w1) = sys.socket w in
      let (connected, w2) = sys.connect sock_fd host port w1 in
      if slt32 sock_fd 0
      then (minus_one, w1)
      else if connected
      then (sock_fd, w2)
      else (minus_one, w2)

  -- initConnection, from thread `id` on with n threads left.
  unfoldable pub init_connection : ℕ → ℕ → Text → ℕ → ConnList → sys.World → ConnList × sys.World
  unfolding create_connection
  init_connection zero id host port m w = (m, w)
  init_connection (suc n) id host port m w =
      let (conn, w1) = create_connection host port w in
      init_connection n (id + 1) host port
        (if slt32 0 conn then set_conn id host port conn m else m) w1

  -- getConnection
  unfoldable pub get_connection : ℕ → Text → ℕ → ConnList → sys.World → ℕ × ConnList × sys.World
  unfolding create_connection
  get_connection id host port m w =
      let (read, w1) = sys.rdlock w in
      let (write, w2) = sys.wrlock (sys.unlock w1) in
      let (conn, w3) = create_connection host port w2 in
      if read
      then (if slt32 0 (conn_at id host port m)
          then (conn_at id host port m, touch_conn id host port m, sys.unlock w1)
          else if write
          then (conn, set_conn id host port conn m, sys.unlock w3)
          else (minus_one, touch_conn id host port m, w2))
      else (minus_one, m, w1)

  -- closeConnection
  unfoldable pub close_connection : ℕ → sys.World → sys.World
  close_connection conn w = if slt32 0 conn then sys.close conn w else w

  -- destoryConnection, which goes on where the lock fails.
  unfoldable pub destory_connection : ℕ → ConnList → sys.World → ConnList × sys.World
  unfolding clear_conn
  destory_connection conn m w =
      if slt32 0 conn
      then (clear_conn conn m, sys.unlock (sys.wrlock (sys.close conn w)).1)
      else (m, w)

  -- getConnectionSize
  unfoldable pub get_connection_size : ConnList → sys.World → ℕ × sys.World
  unfolding count_conns
  get_connection_size m w =
      let (read, w1) = sys.rdlock w in
      if read then (count_conns m, sys.unlock w1) else (minus_one, w1)

  -- destoryConnPool: the loops call destoryConnection for the value that each entry has by then.
  unfoldable pub destory_ports : ℕ → Text → Map ℕ ℕ → ConnList → sys.World → ConnList × sys.World
  unfolding destory_connection
  destory_ports id host [] m w = (m, w)
  destory_ports id host ((port, c) ∷ it) m w =
      let r = destory_connection (conn_at id host port m) m w in destory_ports id host it r.0 r.1

  unfoldable pub destory_hosts :
      ℕ → Map Text (Map ℕ ℕ) → ConnList → sys.World → ConnList × sys.World
  unfolding destory_ports
  destory_hosts id [] m w = (m, w)
  destory_hosts id ((host, ports) ∷ it) m w =
      let r = destory_ports id host ports m w in destory_hosts id it r.0 r.1

  unfoldable pub destory_ids : ConnList → ConnList → sys.World → ConnList × sys.World
  unfolding destory_hosts
  destory_ids [] m w = (m, w)
  destory_ids ((id, hosts) ∷ it) m w = let r = destory_hosts id hosts m w in destory_ids it r.0 r.1

  unfoldable pub destory_conn_pool : ConnList → sys.World → ConnList × sys.World
  unfolding destory_ids
  destory_conn_pool m w = let r = destory_ids m m (sys.wrlock w).1 in (r.0, sys.unlock r.1)
