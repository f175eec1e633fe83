-- ===== src/Hash/Restore.antt =====
-- A host that goes off the ring of src/hash.cpp and comes back: `delHost`, then `addHost`.
use kvproxy.Base.{
  ℕ, zero, suc, ◌+◌, ◌<◌, ◌≡◌, ◌≢◌, refl, sym, ◌∙◌, subst, inl, inr, Bool, true, false, none, some,
  [], ◌∷◌, ◌||◌, arith, ◌==◌, if◌then◌else◌, ==_iff, Bool-cases, Option-cases, Option, length,
}
use mathlib.Core.Bool.{false≢true}
use kvproxy.Base.Order.{nat_ord, pair_ord, text_ord}
use kvproxy.Base.Map.{lookup, insert, lookup-insert}
use kvproxy.Base.Text.{Text}
use kvproxy.Hash.{
  Owner, Ring, ConsistentHash, vnode_key, place_vnodes, place_hosts, create_v_nodes, add_host,
  del_host, Increment,
}
use kvproxy.Hash.Sorted.{SortedFrom, IsSorted, place_vnodes-IsSorted, del_host_cases}
use kvproxy.Hash.Find.{lookup_above}
use kvproxy.Hash.Removal.{LosesOnly, del_loop-LosesOnly}

-- One of the n points of a host from the i-th on.
pub is_point : ℕ → ℕ → ℕ → ℕ → Bool
is_point zero i index q = false
is_point (suc n) i index q = (vnode_key index i == q) || is_point n (i + 1) index q

pub lookup-place_vnodes :
    (n i index : ℕ) (host : Owner) (ring : Ring) (q : ℕ)
    → lookup q (place_vnodes n i index host ring)
      ≡ (if is_point n i index q then some host else lookup q ring)
unfolding place_vnodes is_point
lookup-place_vnodes zero i index host ring q = refl
lookup-place_vnodes (suc n) i index host ring q =
    rw
      (
        lookup-place_vnodes n (i + 1) index host (insert (vnode_key index i) host ring) q,
        lookup-insert (vnode_key index i) q host ring,
      )
      (ground arith)

-- No point of a ring lies below its bound.
lookup_below : (lo q : ℕ) (ring : Ring) → SortedFrom lo ring → q < lo → lookup q ring ≡ none
lookup_below lo q ring s b = elim (Option-cases (lookup q ring)) [
  | inl e ↦ e
  | inr (w, e) ↦ absurd (omega (arith, lookup_above lo q ring s e))
]

-- Two rings in key order with the same points are the same.
pub Ring-ext :
    (lo ki : ℕ) (a b : Ring)
    → SortedFrom lo a
    → SortedFrom ki b
    → ((q : ℕ) → lookup q a ≡ lookup q b)
    → a ≡ b
Ring-ext lo ki [] [] s t h = refl
Ring-ext lo ki [] ((j, v) ∷ b) s t h = absurd (ground (arith, h j, ==_iff j j))
Ring-ext lo ki ((i, u) ∷ a) [] s t h = absurd (ground (arith, h i, ==_iff i i))
Ring-ext lo ki ((i, u) ∷ a) ((j, v) ∷ b) s t h =
    let heads : (i ≡ j) × (u ≡ v) = ground (
      arith,
      h i,
      h j,
      lookup_above (suc j) i b {w = u} t.1,
      lookup_above (suc i) j a {w = v} s.1,
    ) in
    let tails : (q : ℕ) → lookup q a ≡ lookup q b =
      λ q. ground (arith, heads, h q, lookup_below (suc i) q a s.1, lookup_below (suc j) q b t.1) in
    cc (heads.0, heads.1, Ring-ext (suc i) (suc j) a b s.1 t.1 tails)

-- The host holds all of its points, and no others.
pub record IsPlaced (host : Owner) (index weight : ℕ) (ring : Ring) : Type 0 where
  pub holds : (q : ℕ) → is_point weight 0 index q ≡ true → lookup q ring ≡ some host
  pub only :
      (q : ℕ) (u : Text) → lookup q ring ≡ some (u, host.1) → is_point weight 0 index q ≡ true

-- That is so once the host has been placed in a ring that had none of its points.
pub place_vnodes-IsPlaced :
    (host : Owner) (index weight : ℕ) (ring : Ring)
    → ((q : ℕ) (u : Text) → lookup q ring ≢ some (u, host.1))
    → IsPlaced host index weight (place_vnodes weight 0 index host ring)
place_vnodes-IsPlaced host index weight ring new = record {
  holds = λ q e. lookup-place_vnodes weight 0 index host ring q ∙ rw e;
  only = λ q u e. elim (Bool-cases (is_point weight 0 index q)) [
    | inl point ↦ point
    | inr other ↦ absurd (new q u (rw (lookup-place_vnodes weight 0 index host ring q, other) at e))
  ];
}

add_host-free :
    (host : Owner) (index weight : ℕ) (h : ConsistentHash)
    → h.locked ≡ false
    → (add_host host index weight h).1.hash ≡ place_vnodes weight 0 index host h.hash
unfolding add_host create_v_nodes place_hosts
add_host-free host index weight h free = rw free refl

pub place_vnodes-LosesOnly :
    (host : Owner) (index weight : ℕ) (ring new : Ring)
    → IsSorted ring
    → LosesOnly host.1 ring new
    → IsPlaced host index weight ring
    → place_vnodes weight 0 index host new ≡ ring
place_vnodes-LosesOnly host index weight ring new s v placed =
    Ring-ext 0 0 _ ring (place_vnodes-IsSorted weight 0 index host new v.sorted) s
      λ q. lookup-place_vnodes weight 0 index host new q ∙ same q
  where
    -- A point of another host is still there.
    kept_point :
        (q : ℕ) → ((u : Text) → lookup q ring ≢ some (u, host.1)) → lookup q new ≡ lookup q ring
    kept_point q n = elim (Option-cases (lookup q ring)) [
      | inl e ↦ elim (Option-cases (lookup q new)) [
        | inl f ↦ f ∙ sym e
        | inr (w, f) ↦ absurd (nothing w (sym e ∙ v.was q w f))
      ]
      | inr ((u, b), e) ↦
          v.stays q u b (λ p. n u (subst (λ c. lookup q ring ≡ some (u, c)) p e)) e ∙ sym e
    ]
      where
        nothing : (w : Owner) → ◌≡◌ {A = Option Owner} none (some w) → ⊥
        nothing w q = cc

    same : (q : ℕ) → (if is_point weight 0 index q then some host else lookup q new) ≡ lookup q ring
    same q = elim (Bool-cases (is_point weight 0 index q)) [
      | inl e ↦ rw e (sym (placed.holds q e))
      | inr e ↦ rw e (kept_point q (λ u l. false≢true (sym e ∙ placed.only q u l)))
    ]

-- Wherever the increments of erased iterators lead in the map: where the lock is free, a host that held its
-- points, and no others, gets the old ring back when `delHost` has removed it, or some of its points, and
-- `addHost` adds it again with the same index and weight; the ring was in key order.
pub add_host-del_host :
    (to : Increment) (b : Bool) (host : Owner) (index weight : ℕ) (h h' : ConsistentHash)
    → IsSorted h.hash
    → h.locked ≡ false
    → IsPlaced host index weight h.hash
    → del_host to host.1 h ≡ some (b, h')
    → (b ≡ true) × ((add_host host index weight h').1.hash ≡ h.hash)
add_host-del_host to b host index weight h h' s free placed e =
    elim (del_host_cases to host.1 h h' b e) [
      | inl (locked, _, _) ↦ absurd (false≢true (sym free ∙ locked))
      | inr (ring, _, answered, run, made) ↦ (
        answered,
        subst (λ (x : ConsistentHash). (add_host host index weight x).1.hash ≡ h.hash) (sym made)
            (add_host-free host index weight (record h { hash = ring; hash_tmp = h.hash }) free
              ∙ place_vnodes-LosesOnly host index weight h.hash ring s
                  (del_loop-LosesOnly to host.1 (length h.hash) 0 h.hash ring s run) placed),
      )
    ]
