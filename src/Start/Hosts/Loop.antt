-- ===== src/Start/Hosts/Loop.antt =====
-- What `setHosts` of src/kvproxy.cpp keeps while it goes over the section.
use kvproxy.Base.{
  ℕ, ◌≡◌, refl, ◌∙◌, ap, inl, inr, false, Option, none, some, [], ◌∷◌, arith, Bool-cases,
  Option-cases, length, ltb,
}
use kvproxy.Base.Order.{nat_ord, text_ord, pair_ord}
use kvproxy.Base.Map.{Map, at}
use kvproxy.Base.Text.{Text}
use kvproxy.System.{System}
use kvproxy.Hash
use kvproxy.Hash.{ConsistentHash, new_hash}
use kvproxy.Proxy.State.{Hosts, set_host_alias}
use kvproxy.Proxy.Failover.{host_port}
use kvproxy.Proxy.Failover.Health.{offline}
use kvproxy.Proxy.Setup.{
  Kind, default, backup, read, other, two_parts, number, add_member, Setup, add_host_of, add_hosts,
  set_rings,
}
use kvproxy.Start.Hosts.Members.{set_hosts-HasMembers}
use kvproxy.Start.Hosts.Kinds.{
  RingMembers, TmpMembers, set_host_alias-RingMembers, set_host_alias-sets, add_member-RingMembers,
  add_member-TmpMembers, TmpMembers-same,
}

-- No host is marked offline.
abbrev pub NoMarks : Hosts → Type 0
NoMarks p = (a : ℕ) → offline a p ≡ false

set_host_alias-marks :
    (host : Text) (port : ℕ) (p : Hosts)
    → (set_host_alias host port p).1.host_offline ≡ p.host_offline
unfolding set_host_alias
set_host_alias-marks host port p = ground arith

add_member-marks :
    (kind : Kind) (a : ℕ) (p : Hosts) → (add_member kind a p).host_offline ≡ p.host_offline
unfolding add_member
add_member-marks default a p = refl
add_member-marks backup a p = refl
add_member-marks read a p = refl
add_member-marks other a p = refl

-- What setHosts keeps while it goes over the section.
pub record InLoop (kind : Kind) (p : Hosts) (tmp : Hash.Hosts) : Type 0 where
  pub rings : RingMembers p
  pub found : TmpMembers kind p tmp
  pub unmarked : NoMarks p

module _ (sys : System) (junk thread_count : ℕ) where
  add_host_of-InLoop :
      (kind : Kind) (host : Text) (port index weight : ℕ) (s : Setup sys junk thread_count kind)
      → InLoop kind s.hosts s.hosts_tmp
      → let t = add_host_of sys junk thread_count kind host port index weight s in
        InLoop kind t.hosts t.hosts_tmp
  unfolding add_host_of
  add_host_of-InLoop kind host port index weight s v =
      let (a, p) = set_host_alias host port s.hosts in
      let (d, r, b) = set_host_alias-sets host port s.hosts in
      record {
        rings =
            add_member-RingMembers kind a (index, weight) p
              (set_host_alias-RingMembers host port s.hosts v.rings);
        found =
            add_member-TmpMembers kind a (host_port (host, port)) (index, weight) p s.hosts_tmp
              (TmpMembers-same kind s.hosts p s.hosts_tmp d r b v.found);
        unmarked = λ j.
            ap (at j false) (add_member-marks kind a _ ∙ set_host_alias-marks host port s.hosts)
            ∙ v.unmarked j;
      }

  abbrev pub GoesOn : (kind : Kind) → Option (Setup sys junk thread_count kind) → Type 0
  GoesOn kind none = Unit
  GoesOn kind (some t) = InLoop kind t.hosts t.hosts_tmp

  pub add_hosts-GoesOn :
      (kind : Kind) (host_group : Map Text Text) (s : Setup sys junk thread_count kind)
      → InLoop kind s.hosts s.hosts_tmp
      → GoesOn kind (add_hosts sys junk thread_count kind host_group s)
  unfolding add_hosts
  add_hosts-GoesOn kind [] s v = v
  add_hosts-GoesOn kind ((name, text) ∷ host_group) s v = elim (Option-cases (two_parts name)) [
    | inl bad ↦ rw (add_hosts, bad) tt
    | inr ((host, port), e) ↦ elim (Option-cases (two_parts text)) [
      | inl bad ↦ rw (add_hosts, e, bad) tt
      | inr ((index, weight), f) ↦
          rw (add_hosts, e, f)
            (add_hosts-GoesOn kind host_group
              (add_host_of sys junk thread_count kind host (number junk port) (number junk index)
                (number junk weight) s)
              (add_host_of-InLoop kind host (number junk port) (number junk index)
                (number junk weight) s v))
    ]
  ]

  pub set_rings-InLoop :
      (kind : Kind) (s : Setup sys junk thread_count kind)
      → InLoop kind s.hosts s.hosts_tmp
      → GoesOn kind (set_rings sys junk thread_count kind s)
  unfolding set_rings
  set_rings-InLoop default s v = elim (Bool-cases (ltb 0 (length s.hosts_tmp))) [
    | inr empty ↦ rw empty tt
    | inl found ↦ rw found (record {
      rings = record {
        hash =
            set_hosts-HasMembers s.hosts.hosts_default s.hosts_tmp s.hosts.hash v.found
              v.rings.hash;
        hash_read = v.rings.hash_read;
        hash_backup = v.rings.hash_backup;
      };
      found = v.found;
      unmarked = v.unmarked;
    })
  ]
  set_rings-InLoop backup s v = elim (Bool-cases (ltb 0 (length s.hosts_tmp))) [
    | inr empty ↦ rw empty v
    | inl found ↦ rw found (record {
      rings = record {
        hash = v.rings.hash;
        hash_read = v.rings.hash_read;
        hash_backup =
            set_hosts-HasMembers s.hosts.hosts_backup s.hosts_tmp s.hosts.hash_backup v.found
              v.rings.hash_backup;
      };
      found = v.found;
      unmarked = v.unmarked;
    })
  ]
  set_rings-InLoop read s v = elim (Bool-cases (ltb 0 (length s.hosts_tmp))) [
    | inr empty ↦ rw empty v
    | inl found ↦ rw found (record {
      rings = record {
        hash = v.rings.hash;
        hash_read =
            set_hosts-HasMembers s.hosts.hosts_read s.hosts_tmp s.hosts.hash_read v.found
              v.rings.hash_read;
        hash_backup = v.rings.hash_backup;
      };
      found = v.found;
      unmarked = v.unmarked;
    })
  ]
  set_rings-InLoop other s v = v

pub none_found : (kind : Kind) (p : Hosts) → TmpMembers kind p []
none_found default p = tt
none_found backup p = tt
none_found read p = tt
none_found other p = tt
