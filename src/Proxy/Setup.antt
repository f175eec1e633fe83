-- ===== src/Proxy/Setup.antt =====
-- `setHosts` of src/kvproxy.cpp.
pub mod Kept
mod Tests
use kvproxy.Base.{ℕ, false, Option, none, some, [], ◌∷◌, length, ltb, ◌==◌, if◌then◌else◌}
use kvproxy.Base.Order.{nat_ord, text_ord, pair_ord}
use kvproxy.Base.Map.{Map, insert, at}
use kvproxy.Base.Text.{Text}
use kvproxy.Util.{str2int, split}
use kvproxy.System.{System}
use kvproxy.ConnPool.{ConnList, init_connection}
use kvproxy.Hash
use kvproxy.Proxy.State.{Hosts, set_host_alias}
use kvproxy.Proxy.Failover.{host_port}

-- The `type` of setHosts: "hosts", "hosts_backup", "hosts_read", or any other string.
pub data Kind : Type 0 where
  default backup read other : Kind

-- Both parts of "a:b", and none where the string has not two parts: the program then ends.
unfoldable pub two_parts : Text → Option (Text × Text)
unfolding split
two_parts t =
    let parts = split t b':' in
    if length parts == 2 then some (at 0 [] parts, at 1 [] parts) else none

-- str2int returns what its variable holds (`junk`) where there is no number.
abbrev pub number : ℕ → Text → ℕ
number junk t = elim (str2int t) [ none ↦ junk | some n ↦ n ]

-- hosts_default.insert and so on.
unfoldable pub add_member : Kind → ℕ → Hosts → Hosts
add_member default a p = record p { hosts_default = insert a tt p.hosts_default }
add_member backup a p = record p { hosts_backup = insert a tt p.hosts_backup }
add_member read a p = record p { hosts_read = insert a tt p.hosts_read }
add_member other a p = p

module _ (sys : System) (junk thread_count : ℕ) (kind : Kind) where
  -- The variables of the loop: the proxy's, the pool, the world, and hosts_tmp.
  pub record Setup : Type 0 where
    pub hosts : Hosts
    pub pool : ConnList
    pub world : sys.World
    pub hosts_tmp : Hash.Hosts

  -- The loop's body, with the four parts of an entry.
  unfoldable pub add_host_of : Text → ℕ → ℕ → ℕ → Setup → Setup
  unfolding add_member
  add_host_of host port index weight s =
      let (a, p) = set_host_alias host port s.hosts in
      let (pool, world) = init_connection sys thread_count 0 host port s.pool s.world in
      record {
        hosts = add_member kind a (record p { host_infos = insert a (index, weight) p.host_infos });
        pool = pool;
        world = world;
        hosts_tmp = insert (host_port (host, port), a) (index, weight) s.hosts_tmp;
      }

  unfoldable pub add_hosts : Map Text Text → Setup → Option Setup
  unfolding add_host_of two_parts
  add_hosts [] s = some s
  add_hosts ((name, text) ∷ host_group) s = elim (two_parts name) [
    | none ↦ none
    | some (host, port) ↦ elim (two_parts text) [
      | none ↦ none
      | some (index, weight) ↦
          add_hosts host_group
            (add_host_of host (number junk port) (number junk index) (number junk weight) s)
    ]
  ]

  -- The tests after the loop. For backup hosts it also starts the thread (createAsyncReqThread).
  unfoldable pub set_rings : Setup → Option Setup
  set_rings s =
      let found = ltb 0 (length s.hosts_tmp) in
      let p = s.hosts in
      elim kind [
        | default ↦
            if found
            then some
                (record s { hosts = record p { hash = Hash.set_hosts s.hosts_tmp false p.hash } })
            else none
        | backup ↦ some (
            if found
            then record s {
              hosts = record p { hash_backup = Hash.set_hosts s.hosts_tmp false p.hash_backup };
            }
            else s)
        | read ↦ some (
            if found
            then record s {
              hosts = record p { hash_read = Hash.set_hosts s.hosts_tmp false p.hash_read };
            }
            else s)
        | other ↦ some s
      ]

  -- setHosts, for the section of the configuration that the group names, in the order of its keys.
  unfoldable pub set_hosts : Map Text Text → Hosts → ConnList → sys.World → Option Setup
  unfolding add_hosts set_rings
  set_hosts host_group p pool w =
      elim (add_hosts host_group (record { hosts = p; pool = pool; world = w; hosts_tmp = [] })) [
        | none ↦ none
        | some s ↦ set_rings s
      ]
