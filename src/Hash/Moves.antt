-- ===== src/Hash/Moves.antt =====
-- `addHost` of src/hash.cpp: which keys change their host.
use kvproxy.Base.{
  ℕ, zero, suc, ◌+◌, ◌≤◌, ◌≡◌, ◌≢◌, refl, sym, ◌∙◌, subst, ◌⊎◌, inl, inr, some, [], ◌∷◌, arith,
  ◌==◌, ==_iff, Bool-cases, not,
}
use mathlib.Core.Option.{some-injective}
use kvproxy.Base.Order.{nat_ord, pair_ord, text_ord}
use kvproxy.Base.Map.{lookup, insert, lookup-insert}
use kvproxy.Base.Text.{Text}
use kvproxy.Crc.{crc32}
use kvproxy.Hash.{
  Owner, Ring, ConsistentHash, vnode_key, place_vnodes, create_v_nodes, add_host, find_key, find,
  lower_bound, entry_at,
}
use kvproxy.Hash.Sorted.{IsSorted, insert-SortedFrom}
use kvproxy.Hash.Find.{Owns, NextPoint, AllBelow, find_key-Owns, Owns-unique}

module _ (p : ℕ) (v : Owner) (ring : Ring) where
  insert-ne-nil : insert p v ring ≢ []
  insert-ne-nil e =
      let hit : lookup p (insert p v ring) ≡ some v =
        rw (lookup-insert p p v ring) (ground (arith, ==_iff p p)) in
      absurd (none_hit (subst (λ r. lookup p r ≡ some v) e hit))
    where
      none_hit : lookup p [] ≡ some v → ⊥
      none_hit h = cc

  -- The points of the old ring are points of the new one.
  keep_point :
      (q : ℕ) (w : Owner)
      → lookup q ring ≡ some w
      → (u : Owner) × (lookup q (insert p v ring) ≡ some u)
  keep_point q w l = elim (Bool-cases (p == q)) [
    | inl e ↦ (v, rw (lookup-insert p q v ring, e))
    | inr e ↦ (w, rw (lookup-insert p q v ring, e) l)
  ]

  NextPoint-old : (k q : ℕ) → NextPoint (insert p v ring) k q → NextPoint ring k q
  NextPoint-old k q next r w l b = let (u, m) = keep_point r w l in next r u m b

  AllBelow-old : (k : ℕ) → AllBelow (insert p v ring) k → AllBelow ring k
  AllBelow-old k all r w l = let (u, m) = keep_point r w l in all r u m

  Owns-old : (k : ℕ) (a : Owner) → Owns (insert p v ring) k a → (a ≡ v) ⊎ Owns ring k a
  Owns-old k a (q, l, c) = elim (Bool-cases (p == q)) [
    | inl e ↦ inl (some-injective _ _ (sym l ∙ (rw (lookup-insert p q v ring, e))))
    | inr e ↦ inr (q, rw (lookup-insert p q v ring, e) at l, old c)
  ]
    where
      old :
          ((k ≤ q) × NextPoint (insert p v ring) k q)
            ⊎ (AllBelow (insert p v ring) k × NextPoint (insert p v ring) 0 q)
          → ((k ≤ q) × NextPoint ring k q) ⊎ (AllBelow ring k × NextPoint ring 0 q)
      old (inl (h, next)) = inl (h, NextPoint-old k q next)
      old (inr (all, next)) = inr (AllBelow-old k all, NextPoint-old 0 q next)

-- One new point takes keys for its own host only.
find_key-insert :
    (k p : ℕ) (v : Owner) (ring : Ring)
    → IsSorted ring
    → (find_key k (insert p v ring) ≡ v) ⊎ (find_key k (insert p v ring) ≡ find_key k ring)
unfolding find_key lower_bound entry_at
find_key-insert k p v [] s = ground arith
find_key-insert k p v (e ∷ ring) s =
    elim (Owns-old p v (e ∷ ring) k _ (
      find_key-Owns k (insert p v (e ∷ ring)) (insert-SortedFrom 0 p v (e ∷ ring) (omega arith) s)
        (insert-ne-nil p v (e ∷ ring)))) [
          | inl new ↦ inl new
          | inr old ↦
              inr (Owns-unique k (e ∷ ring) _ _ old (find_key-Owns k (e ∷ ring) s (λ q. cc)))
        ]

pub place_vnodes-moves :
    (n i index k : ℕ) (host : Owner) (ring : Ring)
    → IsSorted ring
    → (find_key k (place_vnodes n i index host ring) ≡ host)
      ⊎ (find_key k (place_vnodes n i index host ring) ≡ find_key k ring)
unfolding place_vnodes
place_vnodes-moves zero i index k host ring s = inr refl
place_vnodes-moves (suc n) i index k host ring s =
    elim (place_vnodes-moves n (i + 1) index k host _
      (insert-SortedFrom 0 (vnode_key index i) host ring (omega arith) s)) [
        | inl new ↦ inl new
        | inr same ↦ elim (find_key-insert k (vnode_key index i) host ring s) [
          | inl new ↦ inl (same ∙ new)
          | inr old ↦ inr (same ∙ old)
        ]
      ]

-- Adding a host to a ring in key order, whatever its index and weight, leaves every key with the
-- host that it had or gives it to the new host; the result says whether the lock was free.
pub find-add_host :
    (key : Text) (host : Owner) (index weight : ℕ) (h : ConsistentHash)
    → IsSorted h.hash
    → ((find key (add_host host index weight h).1 ≡ host)
        ⊎ (find key (add_host host index weight h).1 ≡ find key h))
      × ((add_host host index weight h).0 ≡ not h.locked)
unfolding add_host create_v_nodes find
find-add_host key host index weight h s = (
  elim (Bool-cases h.locked) [
    | inl l ↦ rw l (inr refl)
    | inr l ↦ rw l (place_vnodes-moves weight 0 index (crc32 0 (some key)) host h.hash s)
  ],
  ground arith,
)
