-- ===== src/Hash/Sorted.antt =====
-- A ring is in key order, as `std::map` keeps it.
use kvproxy.Base.{
  ℕ, zero, suc, ◌+◌, ◌≤◌, ◌≡◌, subst, ◌⊎◌, inl, inr, Bool, true, false, Option, none, some, [], ◌∷◌,
  arith, Bool-cases, Option-cases, ◌||◌, drop, length,
}
use mathlib.Core.Option.{some-injective}
use kvproxy.Base.Order.{nat_ord, pair_ord, text_ord}
use kvproxy.Base.Map.{insert, erase}
use kvproxy.Hash.{
  Owner, Ring, is_empty, Hosts, ConsistentHash, vnode_key, place_vnodes, place_hosts,
  create_v_nodes, set_hosts, Increment, next_entry, del_loop, del_host,
}

-- All keys are at least `lo`, in rising order.
abbrev pub SortedFrom : ℕ → Ring → Type 0
SortedFrom lo [] = Unit
SortedFrom lo ((k, _) ∷ ring) = (lo ≤ k) × SortedFrom (suc k) ring

abbrev pub IsSorted : Ring → Type 0
IsSorted = SortedFrom 0

pub SortedFrom-mono : (lo hi : ℕ) (ring : Ring) → lo ≤ hi → SortedFrom hi ring → SortedFrom lo ring
SortedFrom-mono lo hi [] h s = tt
SortedFrom-mono lo hi (_ ∷ ring) h s = (omega arith, s.1)

pub insert-SortedFrom :
    (lo k : ℕ) (v : Owner) (ring : Ring)
    → lo ≤ k
    → SortedFrom lo ring
    → SortedFrom lo (insert k v ring)
insert-SortedFrom lo k v [] h s = (h, tt)
insert-SortedFrom lo k v ((j, w) ∷ ring) h s =
    ground (arith, insert-SortedFrom (suc j) k v ring, SortedFrom-mono (suc k) (suc j) ring)

pub erase-SortedFrom : (lo k : ℕ) (ring : Ring) → SortedFrom lo ring → SortedFrom lo (erase k ring)
erase-SortedFrom lo k [] s = tt
erase-SortedFrom lo k ((j, w) ∷ ring) s =
    ground (arith, erase-SortedFrom (suc j) k ring, SortedFrom-mono lo (suc j) ring)

pub place_vnodes-IsSorted :
    (n i index : ℕ) (host : Owner) (ring : Ring)
    → IsSorted ring
    → IsSorted (place_vnodes n i index host ring)
unfolding place_vnodes
place_vnodes-IsSorted zero i index host ring s = s
place_vnodes-IsSorted (suc n) i index host ring s =
    place_vnodes-IsSorted n (i + 1) index host _
      (insert-SortedFrom 0 (vnode_key index i) host ring (omega arith) s)

pub place_hosts-IsSorted :
    (hosts : Hosts) (ring : Ring) → IsSorted ring → IsSorted (place_hosts hosts ring)
unfolding place_hosts
place_hosts-IsSorted [] ring s = s
place_hosts-IsSorted ((host, (index, weight)) ∷ hosts) ring s =
    place_hosts-IsSorted hosts _ (place_vnodes-IsSorted weight 0 index host ring s)

lost : (r : Ring) → ◌≡◌ {A = Option Ring} none (some r) → ⊥
lost r q = cc

del_loop-IsSorted :
    (to : Increment) (a n : ℕ) (it ring : Ring) {rest : Ring}
    → IsSorted ring
    → del_loop to a n it ring ≡ some rest
    → IsSorted rest
unfolding del_loop
del_loop-IsSorted to a zero it ring {rest} s e = elim (Option-cases (next_entry a it)) [
  | inl done ↦ subst IsSorted (some-injective _ _ (rw (del_loop, done) at e)) s
  | inr (k, hit) ↦ absurd (lost rest (rw (del_loop, hit) at e))
]
del_loop-IsSorted to a (suc n) it ring {rest} s e = elim (Option-cases (next_entry a it)) [
  | inl done ↦ subst IsSorted (some-injective _ _ (rw (del_loop, done) at e)) s
  | inr (k, hit) ↦ elim (Option-cases (to k (erase k ring))) [
    | inl out ↦ absurd (lost rest (rw (del_loop, hit, out) at e))
    | inr (i, led) ↦
        del_loop-IsSorted to a n (drop i (erase k ring)) (erase k ring) {rest = rest}
          (erase-SortedFrom 0 k ring s) (rw (del_loop, hit, led) at e)
  ]
]

create_v_nodes-IsSorted :
    (hosts : Hosts) (h : ConsistentHash)
    → IsSorted h.hash
    → IsSorted (create_v_nodes hosts h).1.hash
unfolding create_v_nodes
create_v_nodes-IsSorted hosts h s = elim (Bool-cases h.locked) [
  | inl e ↦ rw e s
  | inr e ↦ rw e (place_hosts-IsSorted hosts h.hash s)
]

pub set_hosts-IsSorted :
    (hosts : Hosts) (force : Bool) (h : ConsistentHash)
    → IsSorted h.hash
    → IsSorted (set_hosts hosts force h).hash
unfolding set_hosts
set_hosts-IsSorted hosts force h s = elim (Bool-cases (is_empty h.hash || force)) [
  | inl e ↦ rw e (create_v_nodes-IsSorted hosts h s)
  | inr e ↦ rw e s
]

-- What a run of `delHost` that comes to its end has done.
pub del_host_cases :
    (to : Increment) (a : ℕ) (h h' : ConsistentHash) (b : Bool)
    → del_host to a h ≡ some (b, h')
    → ((h.locked ≡ true) × (b ≡ false) × (h' ≡ h))
      ⊎ ((ring : Ring) × (h.locked ≡ false)
          × (b ≡ true)
          × (del_loop to a (length h.hash) h.hash h.hash ≡ some ring)
          × (h' ≡ record h { hash = ring; hash_tmp = h.hash }))
unfolding del_host
del_host_cases to a h h' b e = elim (Bool-cases h.locked) [
  | inl l ↦ inl (l, ground arith, ground arith)
  | inr l ↦ elim (Option-cases (del_loop to a (length h.hash) h.hash h.hash)) [
    | inl n ↦ absurd (ground arith)
    | inr (ring, r) ↦ inr (ring, l, ground arith, r, ground arith)
  ]
]

del_host-IsSorted :
    (to : Increment) (a : ℕ) (h h' : ConsistentHash) (b : Bool)
    → IsSorted h.hash
    → del_host to a h ≡ some (b, h')
    → IsSorted h'.hash
del_host-IsSorted to a h h' b s e = elim (del_host_cases to a h h' b e) [
  | inl (_, _, q) ↦ rw q s
  | inr (ring, _, _, r, q) ↦ rw q (del_loop-IsSorted to a (length h.hash) h.hash h.hash s r)
]
