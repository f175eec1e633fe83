-- ===== src/Proxy/Failover/Offline.antt =====
-- `failover` of src/kvproxy.cpp with is_del: a host goes off the rings.
use mathlib.Core.Option.{some-injective}
use kvproxy.Base.{
  ℕ, ◌≡◌, sym, ◌∙◌, subst, ap, ◌⊎◌, inl, inr, Bool, true, false, Option, none, some, Bool-cases,
  Option-cases, refl,
}
use kvproxy.Base.Order.{nat_ord}
use kvproxy.Base.Map.{lookup, insert, at, at-insert, same_key_refl}
use kvproxy.Base.Text.{Text}
use kvproxy.Hash.{ConsistentHash, Increment, find, del_host}
use kvproxy.Hash.Sorted.{IsSorted}
use kvproxy.Hash.Removal.{LosesOnly, LosesOnly-refl, find-del_host}
use kvproxy.Proxy.State.{Hosts, IndexSet, has}
use kvproxy.Proxy.Failover.{del_from, take_offline, touch_offline, failover_del, failover}

-- Only points of the host are gone, and no key of another host has moved.
pub record HasLeft (a : ℕ) (h h' : ConsistentHash) : Type 0 where
  pub points : LosesOnly a h.hash h'.hash
  pub kept : (key : Text) → ((find key h).1 ≡ a) ⊎ (find key h' ≡ find key h)

no_ring : (h : ConsistentHash) → ◌≡◌ {A = Option ConsistentHash} none (some h) → ⊥
no_ring h e = cc

-- A run of one ring: the host is not in the set, or `delHost` has come to its end.
pub del_from_cases :
    (to : Increment) (a : ℕ) (set : IndexSet) (h h' : ConsistentHash)
    → del_from to a set h ≡ some h'
    → ((has a set ≡ false) × (h ≡ h'))
      ⊎ ((has a set ≡ true) × (b : Bool) × (del_host to a h ≡ some (b, h')))
unfolding del_from
del_from_cases to a set h h' e = elim (Bool-cases (has a set)) [
  | inr out ↦ inl (out, some-injective _ _ (rw (del_from, out) at e))
  | inl member ↦ elim (Option-cases (del_host to a h)) [
    | inl lost ↦ absurd (no_ring h' (rw (del_from, member, lost) at e))
    | inr ((b, g), run) ↦
        let same : g ≡ h' = some-injective _ _ (rw (del_from, member, run) at e) in
        inr (member, b, run ∙ ap (λ (x : ConsistentHash). some (b, x)) same)
  ]
]

del_from-HasLeft :
    (to : Increment) (a : ℕ) (set : IndexSet) (h h' : ConsistentHash)
    → IsSorted h.hash
    → del_from to a set h ≡ some h'
    → HasLeft a h h'
del_from-HasLeft to a set h h' s e = elim (del_from_cases to a set h h' e) [
  | inl (_, same) ↦
      subst (HasLeft a h) same
        (record { points = LosesOnly-refl a h.hash s; kept = λ key. inr refl })
  | inr (_, b, run) ↦
      let (points, kept) = find-del_host to a b h h' s run in
      record { points = points; kept = kept }
]

-- The runs of the three rings.
pub record Taken (to : Increment) (a : ℕ) (p q : Hosts) : Type 0 where
  pub hash : del_from to a p.hosts_default p.hash ≡ some q.hash
  pub hash_read : del_from to a p.hosts_read p.hash_read ≡ some q.hash_read
  pub hash_backup : del_from to a p.hosts_backup p.hash_backup ≡ some q.hash_backup
  pub marked : q.host_offline ≡ insert a true p.host_offline
  pub alias : q.host_alias ≡ p.host_alias
  pub infos : q.host_infos ≡ p.host_infos
  pub default_set : q.hosts_default ≡ p.hosts_default
  pub read_set : q.hosts_read ≡ p.hosts_read
  pub backup_set : q.hosts_backup ≡ p.hosts_backup

no_hosts_left : (q : Hosts) → ◌≡◌ {A = Option Hosts} none (some q) → ⊥
no_hosts_left q e = cc

pub take_offline-Taken :
    (to : Increment) (a : ℕ) (p q : Hosts) → take_offline to a p ≡ some q → Taken to a p q
unfolding take_offline
take_offline-Taken to a p q e = elim (Option-cases (del_from to a p.hosts_default p.hash)) [
  | inl lost ↦ absurd (no_hosts_left q (rw (take_offline, lost) at e))
  | inr (h, d) ↦ elim (Option-cases (del_from to a p.hosts_read p.hash_read)) [
    | inl lost ↦ absurd (no_hosts_left q (rw (take_offline, d, lost) at e))
    | inr (hr, dr) ↦ elim (Option-cases (del_from to a p.hosts_backup p.hash_backup)) [
      | inl lost ↦ absurd (no_hosts_left q (rw (take_offline, d, dr, lost) at e))
      | inr (hb, db) ↦
          subst (Taken to a p) (some-injective _ _ (rw (take_offline, d, dr, db) at e)) (record {
            hash = d;
            hash_read = dr;
            hash_backup = db;
            marked = refl;
            alias = refl;
            infos = refl;
            default_set = refl;
            read_set = refl;
            backup_set = refl;
          })
    ]
  ]
]

no_result : (b : Bool) (q : Hosts) → ◌≡◌ {A = Option (Bool × Hosts)} none (some (b, q)) → ⊥
no_result b q e = cc

-- A run of `failover` for a known host that is online.
pub failover-Taken :
    (to : Increment) (a : ℕ) (b : Bool) (alias : Text × ℕ) (p q : Hosts)
    → lookup a p.host_alias ≡ some alias
    → at a false p.host_offline ≡ false
    → failover to a true p ≡ some (b, q)
    → (b ≡ true) × Taken to a (touch_offline a p) q
unfolding failover failover_del
failover-Taken to a b alias p q known online e =
    elim (Option-cases (take_offline to a (touch_offline a p))) [
      | inl lost ↦ absurd (no_result b q (rw (failover_del, online, known, lost) at e))
      | inr (r, taken) ↦
          let same = some-injective _ _ (rw (failover_del, online, known, taken) at e) in
          (
            sym (ap (λ (x : Bool × Hosts). x.0) same),
            subst (Taken to a (touch_offline a p)) (ap (λ (x : Bool × Hosts). x.1) same)
                (take_offline-Taken to a (touch_offline a p) r taken),
          )
    ]

-- The three rings are in order.
pub record AllSorted (p : Hosts) : Type 0 where
  pub hash : IsSorted p.hash.hash
  pub hash_read : IsSorted p.hash_read.hash
  pub hash_backup : IsSorted p.hash_backup.hash

-- A known host that is online is taken off the rings, which are in key order, wherever the increments of erased
-- iterators lead in the maps: `failover` returns true, the host is marked offline, each of the three
-- rings has lost points of this host only, and no key of another host has moved in any of them. (Where an increment leads
-- out of a map, there is no result; points of the host may be left.)
pub failover-offline :
    (to : Increment) (a : ℕ) (b : Bool) (alias : Text × ℕ) (p q : Hosts)
    → AllSorted p
    → lookup a p.host_alias ≡ some alias
    → at a false p.host_offline ≡ false
    → failover to a true p ≡ some (b, q)
    → (b ≡ true)
      × HasLeft a p.hash q.hash
      × HasLeft a p.hash_read q.hash_read
      × HasLeft a p.hash_backup q.hash_backup
      × (at a false q.host_offline ≡ true)
failover-offline to a b alias p q v known online e =
    let (answered, t) = failover-Taken to a b alias p q known online e in
    (
      answered,
      del_from-HasLeft to a p.hosts_default p.hash q.hash v.hash t.hash,
      del_from-HasLeft to a p.hosts_read p.hash_read q.hash_read v.hash_read t.hash_read,
      del_from-HasLeft to a p.hosts_backup p.hash_backup q.hash_backup v.hash_backup t.hash_backup,
      rw (t.marked, at-insert a a true false (touch_offline a p).host_offline, same_key_refl a)
          refl,
    )
