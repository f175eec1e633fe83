-- ===== src/ConnPool/Slots.antt =====
-- The slots of the pool of src/conn_pool.cpp after its operations.
use kvproxy.Base.{
  ℕ, suc, ◌≤◌, ◌≡◌, ◌≢◌, refl, ◌∙◌, ap, inl, inr, Bool, true, false, ◌&&◌, [], ◌∷◌, ◌==◌,
  if◌then◌else◌, arith, Bool-cases,
}
use kvproxy.Base.Order.{nat_ord, text_ord}
use kvproxy.Base.Map.{Map, insert, at, at-insert, same_key, same_key_iff}
use kvproxy.Base.Text.{Text}
use kvproxy.Base.Word.{slt32}
use kvproxy.System.{System}
use kvproxy.ConnPool.{
  ConnList, conn_at, set_conn, clear_ports, clear_hosts, clear_conn, get_connection,
  destory_connection,
}

abbrev pub same_slot : ℕ → Text → ℕ → ℕ → Text → ℕ → Bool
same_slot id host port j h q = same_key id j && (same_key host h && same_key port q)

pub conn_at-set_conn :
    (id : ℕ) (host : Text) (port c j : ℕ) (h : Text) (q : ℕ) (m : ConnList)
    → conn_at j h q (set_conn id host port c m)
      ≡ (if same_slot id host port j h q then c else conn_at j h q m)
conn_at-set_conn id host port c j h q m = ground (
  arith,
  at-insert id j (insert host (insert port c (at host [] (at id [] m))) (at id [] m)) [] m,
  at-insert host h (insert port c (at host [] (at id [] m))) [] (at id [] m),
  at-insert port q c 0 (at host [] (at id [] m)),
  same_key_iff id j,
  same_key_iff host h,
  same_key_iff port q,
)

-- How many entries hold a connection.
abbrev pub holds : ℕ → Map ℕ ℕ → ℕ
holds conn [] = 0
holds conn ((port, c) ∷ it) = if c == conn then suc (holds conn it) else holds conn it

at-not_held :
    (conn port : ℕ) (m : Map ℕ ℕ) → conn ≢ 0 → holds conn m ≡ 0 → (at port 0 m == conn) ≡ false
at-not_held conn port [] n e = ground arith
at-not_held conn port ((q, c) ∷ m) n e = ground (arith, at-not_held conn port m n)

at-clear_ports :
    (conn port : ℕ) (m : Map ℕ ℕ)
    → conn ≢ 0
    → holds conn m ≤ 1
    → at port 0 (clear_ports conn m) ≡ (if at port 0 m == conn then 0 else at port 0 m)
unfolding clear_ports
at-clear_ports conn port [] n u = ground arith
at-clear_ports conn port ((q, c) ∷ m) n u =
    ground (arith, at-clear_ports conn port m n, at-not_held conn port m n)

at-clear_hosts :
    (conn : ℕ) (host : Text) (m : Map Text (Map ℕ ℕ))
    → at host [] (clear_hosts conn m) ≡ clear_ports conn (at host [] m)
unfolding clear_hosts clear_ports
at-clear_hosts conn host [] = refl
at-clear_hosts conn host ((h, ports) ∷ m) = ground (arith, at-clear_hosts conn host m)

at-clear_conn :
    (conn id : ℕ) (m : ConnList) → at id [] (clear_conn conn m) ≡ clear_hosts conn (at id [] m)
unfolding clear_conn clear_hosts
at-clear_conn conn id [] = refl
at-clear_conn conn id ((j, hosts) ∷ m) = ground (arith, at-clear_conn conn id m)

-- The entries of one thread and host.
abbrev pub ports_of : ℕ → Text → ConnList → Map ℕ ℕ
ports_of id host m = at host [] (at id [] m)

pub ports_of-clear_conn :
    (conn id : ℕ) (host : Text) (m : ConnList)
    → ports_of id host (clear_conn conn m) ≡ clear_ports conn (ports_of id host m)
ports_of-clear_conn conn id host m =
    ap (at host []) (at-clear_conn conn id m) ∙ at-clear_hosts conn host (at id [] m)

-- Destroying an open connection that no thread holds twice for one host sets every slot that has it
-- to 0, and leaves the others; a number that is no open connection changes nothing.
pub destory_connection_lem :
    (sys : System) (conn id : ℕ) (host : Text) (port : ℕ) (m : ConnList) (w : sys.World)
    → holds conn (ports_of id host m) ≤ 1
    → conn_at id host port (destory_connection sys conn m w).0
      ≡ (if slt32 0 conn && conn_at id host port m == conn then 0 else conn_at id host port m)
unfolding destory_connection
destory_connection_lem sys conn id host port m w u = elim (Bool-cases (slt32 0 conn)) [
  | inr closed ↦ rw closed
  | inl is_open ↦ rw is_open (
      ap (at port 0) (ports_of-clear_conn conn id host m)
      ∙ at-clear_ports conn port (ports_of id host m) (ground arith) u)
]

-- A call that returns a connection has put it into its slot.
get_connection-given :
    (sys : System) (id : ℕ) (host : Text) (port : ℕ) (m : ConnList) (w : sys.World)
    → slt32 0 (get_connection sys id host port m w).0 ≡ true
    → (get_connection sys id host port m w).1
      ≡ set_conn id host port (get_connection sys id host port m w).0 m
unfolding get_connection
get_connection-given sys id host port m w given = ground arith

get_connection-found :
    (sys : System) (id : ℕ) (host : Text) (port : ℕ) (m : ConnList) (w : sys.World)
    → (sys.rdlock w).0 ≡ true
    → slt32 0 (conn_at id host port m) ≡ true
    → (get_connection sys id host port m w).0 ≡ conn_at id host port m
unfolding get_connection
get_connection-found sys id host port m w free given = rw (free, given)

same_slot_refl : (id : ℕ) (host : Text) (port : ℕ) → same_slot id host port id host port ≡ true
same_slot_refl id host port = ground (arith, same_key_iff host host)

-- A connection that the pool has given stays in the slot that was asked for: no other slot has
-- changed, and the next call for it returns the same connection, if the pool can be locked.
pub get_connection-again :
    (sys : System) (id : ℕ) (host : Text) (port : ℕ) (m : ConnList) (w w' : sys.World) (j : ℕ)
    (h : Text) (q : ℕ)
    → slt32 0 (get_connection sys id host port m w).0 ≡ true
    → (sys.rdlock w').0 ≡ true
    → let r = get_connection sys id host port m w in
      (conn_at j h q r.1 ≡ (if same_slot id host port j h q then r.0 else conn_at j h q m))
      × ((get_connection sys id host port r.1 w').0 ≡ r.0)
get_connection-again sys id host port m w w' j h q given free =
    let r = get_connection sys id host port m w in
    let put = get_connection-given sys id host port m w given in
    let here : conn_at id host port r.1 ≡ r.0 =
      ap (conn_at id host port) put
      ∙ conn_at-set_conn id host port r.0 id host port m
      ∙ rw (same_slot_refl id host port) in
    (
      ap (conn_at j h q) put ∙ conn_at-set_conn id host port r.0 j h q m,
      get_connection-found sys id host port r.1 w' free (ap (slt32 0) here ∙ given) ∙ here,
    )
