-- ===== src/Start/Hosts/Members.antt =====
-- Each point of a ring of src/kvproxy.cpp is that of a host of the ring's set: `setHosts` keeps it so.
use kvproxy.Base.{
  ℕ, ◌≡◌, refl, sym, ap, subst, inl, inr, true, false, ◌||◌, some, [], ◌∷◌, arith, Bool-cases, ◌==◌,
}
use kvproxy.Base.Order.{nat_ord, text_ord, pair_ord}
use kvproxy.Base.Map.{lookup, insert, lookup-insert}
use kvproxy.Base.Text.{Text}
use kvproxy.Hash
use kvproxy.Hash.{Owner, Ring, ConsistentHash, place_vnodes, place_hosts, create_v_nodes, is_empty}
use kvproxy.Proxy.State.{IndexSet, has}
use kvproxy.Proxy.Failover.Safe.{place_vnodes-owner}

-- A free ring with points of members only.
pub record HasMembers (set : IndexSet) (h : ConsistentHash) : Type 0 where
  pub free : h.locked ≡ false
  pub members : (q : ℕ) (u : Text) (b : ℕ) → lookup q h.hash ≡ some (u, b) → has b set ≡ true

-- The hosts to be placed are members.
abbrev pub AllMembers : IndexSet → Hash.Hosts → Type 0
AllMembers set [] = Unit
AllMembers set (((u, b), info) ∷ hosts) = (has b set ≡ true) × AllMembers set hosts

pub has-insert : (a b : ℕ) (set : IndexSet) → has b (insert a tt set) ≡ ((a == b) || has b set)
has-insert a b set = ground (arith, lookup-insert a b tt set)

pub AllMembers-insert-set :
    (a : ℕ) (set : IndexSet) (hosts : Hash.Hosts)
    → AllMembers set hosts
    → AllMembers (insert a tt set) hosts
AllMembers-insert-set a set [] v = tt
AllMembers-insert-set a set (((u, b), info) ∷ hosts) v =
    (ground (arith, has-insert a b set), AllMembers-insert-set a set hosts v.1)

pub AllMembers-insert :
    (u : Text) (b : ℕ) (info : ℕ × ℕ) (set : IndexSet) (hosts : Hash.Hosts)
    → has b set ≡ true
    → AllMembers set hosts
    → AllMembers set (insert (u, b) info hosts)
AllMembers-insert u b info set [] m v = (m, tt)
AllMembers-insert u b info set (((t, c), i) ∷ hosts) m v =
    ground (arith, AllMembers-insert u b info set hosts m, pair_ord.cmp_eq (t, c) (u, b))

pub HasMembers-insert :
    (a : ℕ) (set : IndexSet) (h : ConsistentHash)
    → HasMembers set h
    → HasMembers (insert a tt set) h
HasMembers-insert a set h v = record {
  free = v.free;
  members = λ q u b l. ground (arith, has-insert a b set, v.members q u b l);
}

place_hosts-members :
    (set : IndexSet) (hosts : Hash.Hosts) (ring : Ring)
    → AllMembers set hosts
    → ((q : ℕ) (u : Text) (b : ℕ) → lookup q ring ≡ some (u, b) → has b set ≡ true)
    → (q : ℕ) (u : Text) (b : ℕ) → lookup q (place_hosts hosts ring) ≡ some (u, b)
    → has b set ≡ true
unfolding place_hosts
place_hosts-members set [] ring v m = m
place_hosts-members set (((t, c), (index, weight)) ∷ hosts) ring v m =
    place_hosts-members set hosts (place_vnodes weight 0 index (t, c) ring) v.1 λ q u b l.
      elim (place_vnodes-owner weight index q (t, c) ring (u, b) l) [
        | inl new ↦ subst (λ x. has x set ≡ true) (sym (ap (λ (o : Owner). o.1) new)) v.0
        | inr old ↦ m q u b old
      ]

set_hosts-full :
    (hosts : Hash.Hosts) (h : ConsistentHash)
    → is_empty h.hash ≡ false
    → Hash.set_hosts hosts false h ≡ h
unfolding Hash.set_hosts
set_hosts-full hosts h full = rw full refl

set_hosts-empty :
    (hosts : Hash.Hosts) (h : ConsistentHash)
    → is_empty h.hash ≡ true
    → h.locked ≡ false
    → Hash.set_hosts hosts false h ≡ record h { hash = place_hosts hosts h.hash; hash_tmp = h.hash }
unfolding Hash.set_hosts create_v_nodes
set_hosts-empty hosts h empty free = rw (empty, free) refl

pub set_hosts-HasMembers :
    (set : IndexSet) (hosts : Hash.Hosts) (h : ConsistentHash)
    → AllMembers set hosts
    → HasMembers set h
    → HasMembers set (Hash.set_hosts hosts false h)
set_hosts-HasMembers set hosts h v m = elim (Bool-cases (is_empty h.hash)) [
  | inr full ↦ subst (HasMembers set) (sym (set_hosts-full hosts h full)) m
  | inl empty ↦
      subst (HasMembers set) (sym (set_hosts-empty hosts h empty m.free))
        (record { free = m.free; members = place_hosts-members set hosts h.hash v m.members })
]
