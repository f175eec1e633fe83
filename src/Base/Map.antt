-- ===== src/Base/Map.antt =====
-- `std::map` as the list of its entries in key order. An iterator is the list from its entry on.
use Prim.Native.Nat.{Ordering}
use mathlib.Core.Path.{◌≡◌, refl}
use mathlib.Core.Logic.{◌↔◌}
use mathlib.Core.Bool.{Bool, true, false}
use mathlib.Core.Option.{Option, none, some}
use mathlib.Core.List.{List, [], ◌∷◌}
use native.Mathlib.Omega.{arith}
use kvproxy.Base.Tests.{if◌then◌else◌}
use kvproxy.Base.Order.{Ord}

abbrev pub Map {ℓ κ} : Type ℓ → Type κ → Type (ℓ ⊔ κ)
Map K V = List (K × V)

-- Neither key is below the other.
abbrev pub same_key {ℓ} : {K : Type ℓ} ⦃o : Ord K⦄ → K → K → Bool
same_key ⦃o⦄ a b = elim (o.cmp a b) [ Ordering.eq ↦ true | _ ↦ false ]

pub same_key_refl {ℓ} : {K : Type ℓ} ⦃o : Ord K⦄ (k : K) → same_key k k ≡ true
same_key_refl ⦃o⦄ k = ground (arith, o.cmp_eq k k)

pub same_key_iff {ℓ} : {K : Type ℓ} ⦃o : Ord K⦄ (j k : K) → (same_key j k ≡ true) ↔ (j ≡ k)
same_key_iff ⦃o⦄ j k = ground (arith, o.cmp_eq j k)

module _ {ℓ κ} {K : Type ℓ} {V : Type κ} ⦃o : Ord K⦄ where
  -- m.find(k)
  abbrev pub lookup : K → Map K V → Option V
  lookup k [] = none
  lookup k ((j, v) ∷ m) = if same_key j k then some v else lookup k m

  -- m[k] = v
  abbrev pub insert : K → V → Map K V → Map K V
  insert k v [] = (k, v) ∷ []
  insert k v ((j, w) ∷ m) =
      let rest = insert k v m in
      elim (o.cmp j k) [
        | Ordering.lt ↦ (j, w) ∷ rest
        | Ordering.eq ↦ (j, v) ∷ m
        | Ordering.gt ↦ (k, v) ∷ (j, w) ∷ m
      ]

  pub lookup-insert :
      (k j : K) (v : V) (m : Map K V)
      → lookup j (insert k v m) ≡ (if same_key k j then some v else lookup j m)
  lookup-insert k j v [] = refl
  lookup-insert k j v ((i, w) ∷ m) =
      ground (arith, o.cmp_eq i k, o.cmp_eq i j, o.cmp_eq k j, lookup-insert k j v m)

  -- The value of m[k], where a missing key gets the default `d`.
  abbrev pub at : K → V → Map K V → V
  at k d m = elim (lookup k m) [ none ↦ d | some v ↦ v ]

  -- m.erase(it), for the iterator at key k.
  abbrev pub erase : K → Map K V → Map K V
  erase k [] = []
  erase k ((j, v) ∷ m) = if same_key j k then m else (j, v) ∷ erase k m

  pub at-insert :
      (k j : K) (v d : V) (m : Map K V)
      → at j d (insert k v m) ≡ (if same_key k j then v else at j d m)
  at-insert k j v d m = ground (arith, lookup-insert k j v m)
