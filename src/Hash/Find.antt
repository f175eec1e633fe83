-- ===== src/Hash/Find.antt =====
-- `find` of src/hash.cpp: the host that owns a key is the one at the next point of the ring.
use kvproxy.Base.{
  ℕ, suc, ◌≤◌, ◌<◌, ◌≡◌, ◌≢◌, ◌↔◌, refl, sym, ◌∙◌, subst, ◌⊎◌, inl, inr, some, [], ◌∷◌, arith, ltb,
  Bool-cases,
}
use mathlib.Core.Option.{some-injective}
use kvproxy.Base.Order.{nat_ord}
use kvproxy.Base.Map.{lookup}
use kvproxy.Base.Text.{Text}
use kvproxy.Crc.{crc32}
use kvproxy.Hash.{Owner, Ring, ConsistentHash, lower_bound, entry_at, find_key, find}
use kvproxy.Hash.Sorted.{SortedFrom, IsSorted}

pub lookup_above :
    (lo q : ℕ) (ring : Ring) {w : Owner} → SortedFrom lo ring → lookup q ring ≡ some w → lo ≤ q
lookup_above lo q [] s e = absurd (cc)
lookup_above lo q ((j, v) ∷ ring) {w} s e = ground (arith, lookup_above (suc j) q ring {w = w} s.1)

-- No point of the ring lies between `k` and `p`.
abbrev pub NextPoint : Ring → ℕ → ℕ → Type 0
NextPoint ring k p = (q : ℕ) (w : Owner) → lookup q ring ≡ some w → k ≤ q → p ≤ q

-- All points of the ring lie below `k`.
abbrev pub AllBelow : Ring → ℕ → Type 0
AllBelow ring k = (q : ℕ) (w : Owner) → lookup q ring ≡ some w → q < k

abbrev pub BoundAt : ℕ → Ring → Ring → Type 0
BoundAt k ring it =
    ((it ≡ []) × AllBelow ring k)
    ⊎ ((p : ℕ) × (v : Owner) × (rest : Ring) × (it ≡ (p, v) ∷ rest)
        × (lookup p ring ≡ some v)
        × (k ≤ p)
        × NextPoint ring k p)

-- Where an iterator that `lower_bound` returns stands.
pub lower_bound-BoundAt :
    (lo k : ℕ) (ring : Ring) → SortedFrom lo ring → BoundAt k ring (lower_bound k ring)
unfolding lower_bound
lower_bound-BoundAt lo k [] s = inl (refl, λ q w e. absurd (cc))
lower_bound-BoundAt lo k ((j, v) ∷ ring) s = elim (Bool-cases (ltb j k)) [
  | inl below ↦ rw below (elim (lower_bound-BoundAt (suc j) k ring s.1) [
    | inl (e, all) ↦ inl (e, λ q w l. ground (arith, all q w))
    | inr (p, u, rest, e, l, h, next) ↦
        inr (p, u, rest, e, ground arith, h, λ q w m b. ground (arith, next q w))
  ])
  | inr above ↦ rw above (
      inr (
        j,
        v,
        ring,
        refl,
        ground arith,
        ground arith,
        λ q w l b. ground (arith, lookup_above (suc j) q ring {w = w} s.1),
      ))
]

-- `host` owns the key: it stands at the first point from `k` on, or, where there is none, at the
-- first point of all.
abbrev pub Owns : Ring → ℕ → Owner → Type 0
Owns ring k host =
    (p : ℕ) × (lookup p ring ≡ some host)
    × (((k ≤ p) × NextPoint ring k p) ⊎ (AllBelow ring k × NextPoint ring 0 p))

pub find_key-Owns :
    (k : ℕ) (ring : Ring) → IsSorted ring → ring ≢ [] → Owns ring k (find_key k ring)
unfolding find_key entry_at
find_key-Owns k [] s n = absurd (n refl)
find_key-Owns k ((j, v) ∷ ring) s n = elim (lower_bound-BoundAt 0 k ((j, v) ∷ ring) s) [
  | inl (e, all) ↦ rw (e, entry_at) (j, ground arith, inr (all, first_point))
  | inr (p, u, rest, e, l, h, next) ↦ rw (e, entry_at) (p, l, inl (h, next))
]
  where
    first_point : NextPoint ((j, v) ∷ ring) 0 j
    first_point q w l b = ground (arith, lookup_above (suc j) q ring {w = w} s.1)

same_point :
    (k p q : ℕ) (ring : Ring) (a b : Owner)
    → lookup p ring ≡ some a
    → lookup q ring ≡ some b
    → ((k ≤ p) × NextPoint ring k p) ⊎ (AllBelow ring k × NextPoint ring 0 p)
    → ((k ≤ q) × NextPoint ring k q) ⊎ (AllBelow ring k × NextPoint ring 0 q)
    → p ≡ q
same_point k p q ring a b l m (inl (kp, np)) (inl (kq, nq)) =
    omega (arith, np q b m kq, nq p a l kp)
same_point k p q ring a b l m (inl (kp, np)) (inr (all, nq)) = absurd (omega (arith, all p a l))
same_point k p q ring a b l m (inr (all, np)) (inl (kq, nq)) = absurd (omega (arith, all q b m))
same_point k p q ring a b l m (inr (_, np)) (inr (_, nq)) =
    omega (arith, np q b m (omega arith), nq p a l (omega arith))

pub Owns-unique : (k : ℕ) (ring : Ring) (a b : Owner) → Owns ring k a → Owns ring k b → a ≡ b
Owns-unique k ring a b (p, l, c) (q, m, d) =
    some-injective _ _
      (sym l ∙ subst (λ r. lookup r ring ≡ some b) (sym (same_point k p q ring a b l m c d)) m)

-- On a ring that is in key order and not empty, `find` returns a host exactly when the host owns
-- the key's crc32: it stands at the first point from that number on or, where there is none, at
-- the first point of all.
pub find_iff_Owns :
    (key : Text) (host : Owner) (h : ConsistentHash)
    → IsSorted h.hash
    → h.hash ≢ []
    → (find key h ≡ host) ↔ Owns h.hash (crc32 0 (some key)) host
unfolding find
find_iff_Owns key host h s n = (
  λ e. subst (Owns h.hash (crc32 0 (some key))) e (find_key-Owns _ h.hash s n),
  λ o. Owns-unique (crc32 0 (some key)) h.hash _ host (find_key-Owns _ h.hash s n) o,
)
