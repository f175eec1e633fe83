-- ===== src/Proxy/Failover/Online.antt =====
-- `failover` of src/kvproxy.cpp without is_del: a host comes back to the rings that it left.
use kvproxy.Base.{ℕ, ◌≡◌, refl, sym, ◌∙◌, ap, inl, inr, Bool, true, false, Option, some, arith}
use kvproxy.Base.Order.{nat_ord}
use kvproxy.Base.Map.{lookup, at, at-insert, same_key_refl}
use kvproxy.Base.Text.{Text}
use kvproxy.Hash.{ConsistentHash, Owner, Increment}
use kvproxy.Hash.Sorted.{IsSorted}
use kvproxy.Hash.Restore.{IsPlaced, add_host-del_host}
use kvproxy.Proxy.State.{Hosts, IndexSet, has}
use kvproxy.Proxy.Failover.Offline.{del_from_cases, failover-Taken}
use kvproxy.Proxy.Failover.{
  del_from, add_to, take_online, touch_offline, failover_add, failover, host_port,
}

-- A ring in which the host holds its points, and no others, if it is in the ring's set.
pub record IsInPlace (host : Owner) (index weight : ℕ) (set : IndexSet) (h : ConsistentHash)
    : Type 0 where
  pub sorted : IsSorted h.hash
  pub free : h.locked ≡ false
  pub placed : has host.1 set ≡ true → IsPlaced host index weight h.hash

add_to-del_from :
    (to : Increment) (host : Owner) (index weight : ℕ) (set : IndexSet) (h h' : ConsistentHash)
    → IsInPlace host index weight set h
    → del_from to host.1 set h ≡ some h'
    → (add_to host index weight set h').hash ≡ h.hash
unfolding add_to
add_to-del_from to host index weight set h h' v e = elim (del_from_cases to host.1 set h h' e) [
  | inl (out, same) ↦ rw out (ap (λ (x : ConsistentHash). x.hash) (sym same))
  | inr (member, b, run) ↦
      rw member
        (add_host-del_host to b host index weight h h' v.sorted v.free (v.placed member) run).1
]

pub record AllInPlace (a : ℕ) (alias : Text × ℕ) (index weight : ℕ) (p : Hosts) : Type 0 where
  pub hash : IsInPlace (host_port alias, a) index weight p.hosts_default p.hash
  pub hash_read : IsInPlace (host_port alias, a) index weight p.hosts_read p.hash_read
  pub hash_backup : IsInPlace (host_port alias, a) index weight p.hosts_backup p.hash_backup

pub failover_add-known :
    (a : ℕ) (alias : Text × ℕ) (info : ℕ × ℕ) (q : Hosts)
    → at a false q.host_offline ≡ true
    → lookup a q.host_alias ≡ some alias
    → lookup a q.host_infos ≡ some info
    → failover_add a q ≡ (true, take_online a alias info (touch_offline a q))
unfolding failover_add
failover_add-known a alias info q off known has_info = ground arith

-- A known host that is online goes offline and comes back, with the index and weight that it has
-- in host_infos, wherever the increments of erased iterators lead in the maps. If the rings are in order and their locks are free, and if the host holds its points
-- and no others in each ring whose set it is in, then both calls of `failover` return true, the three rings are as they were before, and
-- the host is marked online. (Where an increment leads out of a map, the first call has no result.)
pub failover-online :
    (to : Increment) (a : ℕ) (b : Bool) (alias : Text × ℕ) (index weight : ℕ) (p q : Hosts)
    → AllInPlace a alias index weight p
    → lookup a p.host_alias ≡ some alias
    → lookup a p.host_infos ≡ some (index, weight)
    → at a false p.host_offline ≡ false
    → failover to a true p ≡ some (b, q)
    → (b ≡ true)
      × (r : Hosts) × (failover to a false q ≡ some (true, r))
      × (r.hash.hash ≡ p.hash.hash)
      × (r.hash_read.hash ≡ p.hash_read.hash)
      × (r.hash_backup.hash ≡ p.hash_backup.hash)
      × (at a false r.host_offline ≡ false)
unfolding failover take_online
failover-online to a b alias index weight p q v known info online e =
    let (answered, t) = failover-Taken to a b alias p q known online e in
    let host : Owner = (host_port alias, a) in
    let off : at a false q.host_offline ≡ true =
      rw (t.marked, at-insert a a true false (touch_offline a p).host_offline, same_key_refl a)
        refl in
    let added =
      failover_add-known a alias (index, weight) q off (ap (lookup a) t.alias ∙ known)
        (ap (lookup a) t.infos ∙ info) in
    (
      answered,
      take_online a alias (index, weight) (touch_offline a q),
      ap {B = Option (Bool × Hosts)} some added,
      ap (λ set. (add_to host index weight set q.hash).hash) t.default_set
          ∙ add_to-del_from to host index weight p.hosts_default p.hash q.hash v.hash t.hash,
      ap (λ set. (add_to host index weight set q.hash_read).hash) t.read_set
          ∙ add_to-del_from to host index weight p.hosts_read p.hash_read q.hash_read v.hash_read
              t.hash_read,
      ap (λ set. (add_to host index weight set q.hash_backup).hash) t.backup_set
          ∙ add_to-del_from to host index weight p.hosts_backup p.hash_backup q.hash_backup
              v.hash_backup t.hash_backup,
      rw (at-insert a a false false (touch_offline a q).host_offline, same_key_refl a) refl,
    )
