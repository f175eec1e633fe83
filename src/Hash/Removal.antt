-- ===== src/Hash/Removal.antt =====
-- `delHost` of src/hash.cpp: what is left of the ring, and which keys move.
use mathlib.Core.Option.{some-injective}
use mathlib.Core.Bool.{false≢true}
use kvproxy.Base.{
  ℕ, zero, suc, ◌≤◌, ◌≡◌, ◌≢◌, refl, sym, ◌∙◌, subst, ap, ◌⊎◌, inl, inr, Bool, Option, none, some,
  [], ◌∷◌, arith, ◌==◌, if◌then◌else◌, length, drop, ==_iff, Bool-cases, Option-cases,
}
use kvproxy.Base.Order.{nat_ord}
use kvproxy.Base.Map.{lookup, erase}
use kvproxy.Base.Text.{Text}
use kvproxy.Crc.{crc32}
use kvproxy.Hash.{
  Owner, Ring, ConsistentHash, Increment, next_entry, del_loop, del_host, find_key, find,
}
use kvproxy.Hash.Sorted.{SortedFrom, IsSorted, erase-SortedFrom, del_host_cases}
use kvproxy.Hash.Find.{Owns, NextPoint, AllBelow, lookup_above, find_key-Owns, Owns-unique}

-- The new ring is the old one without some of the points of the host.
pub record LosesOnly (a : ℕ) (old new : Ring) : Type 0 where
  pub sorted : IsSorted new
  pub was : (q : ℕ) (w : Owner) → lookup q new ≡ some w → lookup q old ≡ some w
  pub stays :
      (q : ℕ) (u : Text) (b : ℕ) → b ≢ a → lookup q old ≡ some (u, b) → lookup q new ≡ some (u, b)

lookup-erase :
    (lo k q : ℕ) (ring : Ring)
    → SortedFrom lo ring
    → lookup q (erase k ring) ≡ (if k == q then none else lookup q ring)
lookup-erase lo k q [] s = ground arith
lookup-erase lo k q ((j, v) ∷ ring) s = elim (Option-cases (lookup q ring)) [
  | inl e ↦ ground (arith, lookup-erase (suc j) k q ring s.1, e)
  | inr (w, e) ↦
      ground
        (arith, lookup-erase (suc j) k q ring s.1, e, lookup_above (suc j) q ring {w = w} s.1 e)
]

-- A point behind the first one.
lookup_behind :
    (j k : ℕ) (v w : Owner) (ring : Ring)
    → SortedFrom (suc j) ring
    → lookup k ring ≡ some w
    → lookup k ((j, v) ∷ ring) ≡ some w
lookup_behind j k v w ring s l = ground (arith, lookup_above (suc j) k ring {w = w} s l)

-- What the loop finds at an iterator into the ring is a point of the host.
next_entry-lookup :
    (lo a k i : ℕ) (ring : Ring)
    → SortedFrom lo ring
    → next_entry a (drop i ring) ≡ some k
    → (u : Text) × (lookup k ring ≡ some (u, a))
next_entry-lookup lo a k zero [] s e = absurd (ground arith)
next_entry-lookup lo a k (suc i) [] s e = absurd (ground arith)
next_entry-lookup lo a k (suc i) ((j, v) ∷ ring) s e =
    let (u, l) = next_entry-lookup (suc j) a k i ring s.1 e in
    (u, lookup_behind j k v (u, a) ring s.1 l)
next_entry-lookup lo a k zero ((j, (t, b)) ∷ ring) s e = elim (Bool-cases (b == a)) [
  | inl hit ↦
      let same : j ≡ k = some-injective _ _ (rw hit at e) in
      let owner : b ≡ a = (==_iff b a).0 hit in
      (t, rw (sym same, sym owner) (ground (arith, ==_iff j j)))
  | inr miss ↦
      let (u, l) = next_entry-lookup (suc j) a k zero ring s.1 (rw miss at e) in
      (u, lookup_behind j k (t, b) (u, a) ring s.1 l)
]

LosesOnly-erase :
    (a k : ℕ) (u : Text) (ring : Ring)
    → IsSorted ring
    → lookup k ring ≡ some (u, a)
    → LosesOnly a ring (erase k ring)
LosesOnly-erase a k u ring s l = record {
  sorted = erase-SortedFrom 0 k ring s;
  was = λ q w e. ground (arith, lookup-erase 0 k q ring s);
  stays = λ q t b n e. elim (Bool-cases (k == q)) [
    | inl hit ↦
        let same : k ≡ q = (==_iff k q).0 hit in
        absurd (
          n (
            ap (λ (w : Owner). w.1)
              (some-injective _ _ (sym e ∙ subst (λ x. lookup x ring ≡ some (u, a)) same l))))
    | inr miss ↦ lookup-erase 0 k q ring s ∙ rw miss e
  ];
}

LosesOnly-trans : (a : ℕ) (x y z : Ring) → LosesOnly a x y → LosesOnly a y z → LosesOnly a x z
LosesOnly-trans a x y z v w = record {
  sorted = w.sorted;
  was = λ q o e. v.was q o (w.was q o e);
  stays = λ q u b n e. w.stays q u b n (v.stays q u b n e);
}

pub LosesOnly-refl : (a : ℕ) (ring : Ring) → IsSorted ring → LosesOnly a ring ring
LosesOnly-refl a ring s = record { sorted = s; was = λ q w e. e; stays = λ q u b n e. e }

lost : (r : Ring) → ◌≡◌ {A = Option Ring} none (some r) → ⊥
lost r q = cc

pub del_loop-LosesOnly :
    (to : Increment) (a n i : ℕ) (ring r : Ring)
    → IsSorted ring
    → del_loop to a n (drop i ring) ring ≡ some r
    → LosesOnly a ring r
unfolding del_loop
del_loop-LosesOnly to a zero i ring r s e = elim (Option-cases (next_entry a (drop i ring))) [
  | inl done ↦
      subst (LosesOnly a ring) (some-injective _ _ (rw (del_loop, done) at e))
        (LosesOnly-refl a ring s)
  | inr (k, hit) ↦ absurd (lost r (rw (del_loop, hit) at e))
]
del_loop-LosesOnly to a (suc n) i ring r s e = elim (Option-cases (next_entry a (drop i ring))) [
  | inl done ↦
      subst (LosesOnly a ring) (some-injective _ _ (rw (del_loop, done) at e))
        (LosesOnly-refl a ring s)
  | inr (k, hit) ↦ elim (Option-cases (to k (erase k ring))) [
    | inl out ↦ absurd (lost r (rw (del_loop, hit, out) at e))
    | inr (j, led) ↦
        let (u, l) = next_entry-lookup 0 a k i ring s hit in
        LosesOnly-trans a ring (erase k ring) r (LosesOnly-erase a k u ring s l) (
          del_loop-LosesOnly to a n j (erase k ring) r (erase-SortedFrom 0 k ring s)
            (rw (del_loop, hit, led) at e))
  ]
]

-- The increments of erased iterators lead to entries of the map or to its end.
abbrev pub Lands : Increment → Type 0
Lands to = (k : ℕ) (ring : Ring) → (i : ℕ) × (to k ring ≡ some i)

-- What holds after `delHost`, if its increments have not led out of the map.
pub del_host-LosesOnly :
    (to : Increment) (a : ℕ) (b : Bool) (h h' : ConsistentHash)
    → IsSorted h.hash
    → del_host to a h ≡ some (b, h')
    → LosesOnly a h.hash h'.hash
del_host-LosesOnly to a b h h' s e = elim (del_host_cases to a h h' b e) [
  | inl (_, _, same) ↦ rw same (LosesOnly-refl a h.hash s)
  | inr (ring, _, _, run, made) ↦
      rw made (del_loop-LosesOnly to a (length h.hash) 0 h.hash ring s run)
]

module _ (a : ℕ) (ring new : Ring) (v : LosesOnly a ring new) where
  NextPoint-kept : (k p : ℕ) → NextPoint ring k p → NextPoint new k p
  NextPoint-kept k p next q w l h = next q w (v.was q w l) h

  AllBelow-kept : (k : ℕ) → AllBelow ring k → AllBelow new k
  AllBelow-kept k all q w l = all q w (v.was q w l)

  -- A host that stays keeps its keys.
  Owns-kept : (k : ℕ) (w : Owner) → w.1 ≢ a → Owns ring k w → Owns new k w
  Owns-kept k (u, b) n (p, l, c) = (p, v.stays p u b n l, rest c)
    where
      rest :
          ((k ≤ p) × NextPoint ring k p) ⊎ (AllBelow ring k × NextPoint ring 0 p)
          → ((k ≤ p) × NextPoint new k p) ⊎ (AllBelow new k × NextPoint new 0 p)
      rest (inl (h, next)) = inl (h, NextPoint-kept k p next)
      rest (inr (all, next)) = inr (AllBelow-kept k all, NextPoint-kept 0 p next)

no_point : (p : ℕ) (w : Owner) → lookup p [] ≡ some w → ⊥
no_point p w h = cc

find_key_kept :
    (a k : ℕ) (ring new : Ring)
    → LosesOnly a ring new
    → IsSorted ring
    → (find_key k ring).1 ≢ a
    → find_key k new ≡ find_key k ring
find_key_kept a k [] [] v s n = refl
find_key_kept a k [] ((j, w) ∷ new) v s n =
    absurd (no_point j w (v.was j w (ground (arith, ==_iff j j))))
find_key_kept a k (x ∷ ring) [] v s n =
    let (p, l, _) = Owns-kept a (x ∷ ring) [] v k _ n (find_key-Owns k (x ∷ ring) s (λ q. cc)) in
    absurd (no_point p _ l)
find_key_kept a k (x ∷ ring) (y ∷ new) v s n =
    Owns-unique k (y ∷ new) _ _ (find_key-Owns k (y ∷ new) v.sorted (λ q. cc))
      (Owns-kept a (x ∷ ring) (y ∷ new) v k _ n (find_key-Owns k (x ∷ ring) s (λ q. cc)))

-- Wherever the increments of erased iterators lead in the map: on a ring in key order, `delHost` erases
-- points of the host only, all points of other hosts are still there, and each key that was on another
-- host stays on it. It need not erase all points of the host: a key of the host is on any host
-- afterwards. (Where an increment leads out of the map, there is no result.)
pub find-del_host :
    (to : Increment) (a : ℕ) (b : Bool) (h h' : ConsistentHash)
    → IsSorted h.hash
    → del_host to a h ≡ some (b, h')
    → LosesOnly a h.hash h'.hash
      × ((key : Text) → ((find key h).1 ≡ a) ⊎ (find key h' ≡ find key h))
unfolding find
find-del_host to a b h h' s e =
    let v = del_host-LosesOnly to a b h h' s e in
    (
      v,
      λ key. elim (Bool-cases ((find key h).1 == a)) [
        | inl hit ↦ inl ((==_iff _ a).0 hit)
        | inr miss ↦ inr (
            find_key_kept a (crc32 0 (some key)) h.hash h'.hash v s
              (λ q. false≢true (sym miss ∙ (==_iff _ a).1 q)))
      ],
    )
