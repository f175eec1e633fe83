-- ===== src/Proxy/Failover.antt =====
-- `failover` and `checkHealthThread` of src/kvproxy.cpp: hosts go offline after failures in a row,
-- and come back once they can be connected to.
pub mod Offline
pub mod Ends
pub mod Online
pub mod Health
pub mod Recovery
pub mod Round
pub mod Safe
use kvproxy.Base.{
  ℕ, zero, suc, ◌+◌, ◌^◌, Bool, true, false, Option, none, some, List, [], ◌∷◌, ◌++◌, ltb, leb,
  ◌==◌, if◌then◌else◌, ◌&&◌, not,
}
use kvproxy.Base.Order.{nat_ord}
use kvproxy.Base.Map.{Map, lookup, insert, at}
use kvproxy.Base.Word.{slt32}
use kvproxy.Base.Text.{Text}
use kvproxy.Util.{int2str}
use kvproxy.Hash.{ConsistentHash, Owner, Increment, del_host, add_host}
use kvproxy.Proxy.State.{Hosts, IndexSet, has, count_fail}

-- One ring, if the host is in its set. The result of `delHost` and `addHost` only goes to the log.
unfoldable pub del_from : Increment → ℕ → IndexSet → ConsistentHash → Option ConsistentHash
del_from to a set h =
    if has a set then elim (del_host to a h) [ none ↦ none | some r ↦ some r.1 ] else some h

unfoldable pub add_to : Owner → ℕ → ℕ → IndexSet → ConsistentHash → ConsistentHash
add_to host index weight set h = if has host.1 set then (add_host host index weight h).1 else h

-- `m[k]` of a missing key makes an entry.
abbrev pub touch_offline : ℕ → Hosts → Hosts
touch_offline a p = record p { host_offline = insert a (at a false p.host_offline) p.host_offline }

infixl 5 ◌>>=◌
abbrev ◌>>=◌ : {A B : Type 0} → Option A → (A → Option B) → Option B
none >>= f = none
some a >>= f = f a

-- The rings of the three sets, and the mark in host_offline.
unfoldable pub take_offline : Increment → ℕ → Hosts → Option Hosts
unfolding del_from
take_offline to a p = do
  hash ← del_from to a p.hosts_default p.hash
  hash_read ← del_from to a p.hosts_read p.hash_read
  hash_backup ← del_from to a p.hosts_backup p.hash_backup
  some (record p {
    hash = hash;
    hash_read = hash_read;
    hash_backup = hash_backup;
    host_offline = insert a true p.host_offline;
  })

-- "host:port"
abbrev pub host_port : Text × ℕ → Text
host_port (host, port) = host ++ b':' ∷ int2str port

unfoldable pub take_online : ℕ → Text × ℕ → ℕ × ℕ → Hosts → Hosts
unfolding add_to
take_online a alias (index, weight) p = record p {
  hash = add_to (host_port alias, a) index weight p.hosts_default p.hash;
  hash_read = add_to (host_port alias, a) index weight p.hosts_read p.hash_read;
  hash_backup = add_to (host_port alias, a) index weight p.hosts_backup p.hash_backup;
  host_offline = insert a false p.host_offline;
}

-- The two branches. `to` and `none` are as in Hash.del_loop. The result is what
-- `failover` returns.
unfoldable pub failover_del : Increment → ℕ → Hosts → Option (Bool × Hosts)
unfolding take_offline
failover_del to a p =
    let q = touch_offline a p in
    if at a false p.host_offline then some (true, q) else elim (lookup a p.host_alias) [
      | none ↦ some (false, q)
      | some _ ↦ take_offline to a q >>= λ r. some (true, r)
    ]

unfoldable pub failover_add : ℕ → Hosts → Bool × Hosts
unfolding take_online
failover_add a p =
    let q = touch_offline a p in
    if not (at a false p.host_offline) then (true, q) else elim (lookup a p.host_alias) [
      | none ↦ (false, q)
      | some alias ↦ elim (lookup a p.host_infos) [
        | none ↦ (false, q)
        | some info ↦ (true, take_online a alias info q)
      ]
    ]

unfoldable pub failover : Increment → ℕ → Bool → Hosts → Option (Bool × Hosts)
unfolding failover_del failover_add
failover to a is_del p = if is_del then failover_del to a p else some (failover_add a p)

-- (int)it_fail->second >= failover_threshold
abbrev pub failing : ℕ → ℕ → Bool
failing threshold fails = not (slt32 fails threshold)

-- The first loop of `checkHealthThread`, over its copy of st_cont_fail.
unfoldable pub check_online : Increment → ℕ → Map ℕ ℕ → Hosts → Option Hosts
check_online to threshold [] p = some p
check_online to threshold ((a, fails) ∷ it) p =
    (if failing threshold fails then (failover to a true p >>= λ r. some r.1) else some p) >>= λ q.
    check_online to threshold it q

-- Whether a connection to the host can be made just now (createConnection).
abbrev pub Reachable : Type 0
Reachable = Text → ℕ → Bool

-- The second loop, over its copy of host_offline. `alias` is the copy of host_alias that the thread
-- took when it started.
unfoldable pub check_offline : Reachable → Map ℕ (Text × ℕ) → Map ℕ Bool → Hosts → Hosts
check_offline up alias [] p = p
check_offline up alias ((a, offline) ∷ it) p = check_offline up alias it (
    if offline
    then elim (lookup a alias) [
      | none ↦ p
      | some host ↦ if up host.0 host.1 then count_fail false a (failover_add a p).1 else p
    ]
    else p)

-- One round of `checkHealthThread`.
unfoldable pub check_health : Increment → ℕ → Reachable → Map ℕ (Text × ℕ) → Hosts → Option Hosts
unfolding check_online check_offline
check_health to threshold up alias p = check_online to threshold p.st_cont_fail p >>= λ q.
    some (check_offline up alias q.host_offline q)
