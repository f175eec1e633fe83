-- ===== src/Proxy/Setup/Kept.antt =====
-- `setHosts` of src/kvproxy.cpp keeps the rings in order.
use kvproxy.Base.{
  arith, ℕ, ◌≡◌, refl, sym, subst, false, Option, none, some, [], ◌∷◌, inl, inr, Bool-cases,
  Option-cases, length, ltb,
}
use kvproxy.Base.Order.{nat_ord, text_ord, pair_ord}
use kvproxy.Base.Map.{Map, insert}
use kvproxy.Base.Text.{Text}
use kvproxy.System.{System}
use kvproxy.ConnPool.{ConnList}
use kvproxy.Hash
use kvproxy.Hash.Sorted.{IsSorted, set_hosts-IsSorted}
use kvproxy.Proxy.State.{Hosts, set_host_alias}
use kvproxy.Proxy.Setup.{
  Kind, default, backup, read, other, two_parts, number, add_member, Setup, add_host_of, add_hosts,
  set_rings, set_hosts,
}

-- The three rings are in order.
pub record IsSetUp (p : Hosts) : Type 0 where
  pub hash : IsSorted p.hash.hash
  pub hash_read : IsSorted p.hash_read.hash
  pub hash_backup : IsSorted p.hash_backup.hash

pub set_host_alias-rings :
    (host : Text) (port : ℕ) (p : Hosts)
    → let q = (set_host_alias host port p).1 in
      (q.hash ≡ p.hash) × (q.hash_read ≡ p.hash_read) × (q.hash_backup ≡ p.hash_backup)
unfolding set_host_alias
set_host_alias-rings host port p = ground arith

set_host_alias-IsSetUp :
    (host : Text) (port : ℕ) (p : Hosts) → IsSetUp p → IsSetUp (set_host_alias host port p).1
set_host_alias-IsSetUp host port p v =
    let (h, r, b) = set_host_alias-rings host port p in
    record {
      hash = subst (λ (x : Hash.ConsistentHash). IsSorted x.hash) (sym h) v.hash;
      hash_read = subst (λ (x : Hash.ConsistentHash). IsSorted x.hash) (sym r) v.hash_read;
      hash_backup = subst (λ (x : Hash.ConsistentHash). IsSorted x.hash) (sym b) v.hash_backup;
    }

IsSetUp-same :
    (p q : Hosts)
    → q.hash ≡ p.hash
    → q.hash_read ≡ p.hash_read
    → q.hash_backup ≡ p.hash_backup
    → IsSetUp p
    → IsSetUp q
IsSetUp-same p q h r b v = record {
  hash = rw h v.hash;
  hash_read = rw r v.hash_read;
  hash_backup = rw b v.hash_backup;
}

add_member-IsSetUp :
    (kind : Kind) (a : ℕ) (info : ℕ × ℕ) (p : Hosts)
    → IsSetUp p
    → IsSetUp (add_member kind a (record p { host_infos = insert a info p.host_infos }))
unfolding add_member
add_member-IsSetUp default a info p v = IsSetUp-same p _ refl refl refl v
add_member-IsSetUp backup a info p v = IsSetUp-same p _ refl refl refl v
add_member-IsSetUp read a info p v = IsSetUp-same p _ refl refl refl v
add_member-IsSetUp other a info p v = IsSetUp-same p _ refl refl refl v

module _ (sys : System) (junk thread_count : ℕ) where
  add_host_of-IsSetUp :
      (kind : Kind) (host : Text) (port index weight : ℕ) (s : Setup sys junk thread_count kind)
      → IsSetUp s.hosts
      → IsSetUp (add_host_of sys junk thread_count kind host port index weight s).hosts
  unfolding add_host_of
  add_host_of-IsSetUp kind host port index weight s v =
      add_member-IsSetUp kind (set_host_alias host port s.hosts).0 (index, weight) _
        (set_host_alias-IsSetUp host port s.hosts v)

  -- Where the program does not end, the state is set up.
  abbrev GoesOn : (kind : Kind) → Option (Setup sys junk thread_count kind) → Type 0
  GoesOn kind none = Unit
  GoesOn kind (some t) = IsSetUp t.hosts

  set_rings-IsSetUp :
      (kind : Kind) (s : Setup sys junk thread_count kind)
      → IsSetUp s.hosts
      → GoesOn kind (set_rings sys junk thread_count kind s)
  unfolding set_rings
  set_rings-IsSetUp default s v = elim (Bool-cases (ltb 0 (length s.hosts_tmp))) [
    | inl found ↦ rw found (record {
      hash = set_hosts-IsSorted s.hosts_tmp false s.hosts.hash v.hash;
      hash_read = v.hash_read;
      hash_backup = v.hash_backup;
    })
    | inr empty ↦ rw empty tt
  ]
  set_rings-IsSetUp backup s v = elim (Bool-cases (ltb 0 (length s.hosts_tmp))) [
    | inl found ↦ rw found (record {
      hash = v.hash;
      hash_read = v.hash_read;
      hash_backup = set_hosts-IsSorted s.hosts_tmp false s.hosts.hash_backup v.hash_backup;
    })
    | inr empty ↦ rw empty v
  ]
  set_rings-IsSetUp read s v = elim (Bool-cases (ltb 0 (length s.hosts_tmp))) [
    | inl found ↦ rw found (record {
      hash = v.hash;
      hash_read = set_hosts-IsSorted s.hosts_tmp false s.hosts.hash_read v.hash_read;
      hash_backup = v.hash_backup;
    })
    | inr empty ↦ rw empty v
  ]
  set_rings-IsSetUp other s v = v

  add_hosts-GoesOn :
      (kind : Kind) (host_group : Map Text Text) (s : Setup sys junk thread_count kind)
      → IsSetUp s.hosts
      → GoesOn kind (add_hosts sys junk thread_count kind host_group s)
  unfolding add_hosts
  add_hosts-GoesOn kind [] s v = v
  add_hosts-GoesOn kind ((name, text) ∷ host_group) s v = elim (Option-cases (two_parts name)) [
    | inl bad ↦ rw (add_hosts, bad) tt
    | inr ((host, port), e) ↦ elim (Option-cases (two_parts text)) [
      | inl bad ↦ rw (add_hosts, e, bad) tt
      | inr ((index, weight), f) ↦
          rw (add_hosts, e, f)
            (add_hosts-GoesOn kind host_group
              (add_host_of sys junk thread_count kind host (number junk port) (number junk index)
                (number junk weight) s)
              (add_host_of-IsSetUp kind host (number junk port) (number junk index)
                (number junk weight) s v))
    ]
  ]

  -- Whatever section of the configuration setHosts reads, and for each of the three kinds of hosts:
  -- where it does not end the program, the three rings stay in order.
  pub set_hosts-IsSetUp :
      (kind : Kind) (host_group : Map Text Text) (p : Hosts) (pool : ConnList) (w : sys.World)
      (t : Setup sys junk thread_count kind)
      → IsSetUp p
      → set_hosts sys junk thread_count kind host_group p pool w ≡ some t
      → IsSetUp t.hosts
  unfolding set_hosts
  set_hosts-IsSetUp kind host_group p pool w t v e =
      let start : Setup sys junk thread_count kind = record {
        hosts = p;
        pool = pool;
        world = w;
        hosts_tmp = [];
      } in
      elim (Option-cases (add_hosts sys junk thread_count kind host_group start)) [
        | inl ended ↦ absurd (nothing (rw (set_hosts, ended) at e))
        | inr (s, added) ↦ subst (GoesOn kind) (rw (set_hosts, added) at e) (
            set_rings-IsSetUp kind s
              (subst (GoesOn kind) added (add_hosts-GoesOn kind host_group start v)))
      ]
    where
      nothing : ◌≡◌ {A = Option (Setup sys junk thread_count kind)} none (some t) → ⊥
      nothing q = cc
