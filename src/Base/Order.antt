-- ===== src/Base/Order.antt =====
-- The strict orders by which `std::map` and `std::set` keep their keys.
use Prim.Native.Nat.{Ordering}
use Prim.Native.Nat.{ℕ, compare}
use mathlib.Core.Path.{◌≡◌, refl}
use mathlib.Core.Logic.{◌↔◌}
use mathlib.Core.List.{List, [], ◌∷◌}
use native.Mathlib.Omega.{arith}

pub record Ord {ℓ} (K : Type ℓ) : Type ℓ where
  pub cmp : K → K → Ordering
  pub cmp_eq : (a b : K) → (cmp a b ≡ Ordering.eq) ↔ (a ≡ b)

pub nat_cmp_eq : (a b : ℕ) → (compare a b ≡ Ordering.eq) ↔ (a ≡ b)
nat_cmp_eq a b = ground arith

instance abbrev pub nat_ord : Ord ℕ
nat_ord = record { cmp = compare; cmp_eq = nat_cmp_eq }

-- Lexicographic order: of byte strings, and of pairs.
abbrev pub then_cmp : Ordering → Ordering → Ordering
then_cmp Ordering.eq o = o
then_cmp Ordering.lt o = Ordering.lt
then_cmp Ordering.gt o = Ordering.gt

abbrev pub text_cmp : List ℕ → List ℕ → Ordering
text_cmp [] [] = Ordering.eq
text_cmp [] (y ∷ ys) = Ordering.lt
text_cmp (x ∷ xs) [] = Ordering.gt
text_cmp (x ∷ xs) (y ∷ ys) = then_cmp (compare x y) (text_cmp xs ys)

pub text_cmp_eq : (a b : List ℕ) → (text_cmp a b ≡ Ordering.eq) ↔ (a ≡ b)
text_cmp_eq [] [] = (λ _. refl, λ _. refl)
text_cmp_eq [] (y ∷ ys) = ground arith
text_cmp_eq (x ∷ xs) [] = ground arith
text_cmp_eq (x ∷ xs) (y ∷ ys) = ground (arith, text_cmp_eq xs ys)

instance abbrev pub text_ord : Ord (List ℕ)
text_ord = record { cmp = text_cmp; cmp_eq = text_cmp_eq }

module _ {ℓ κ} {A : Type ℓ} {B : Type κ} ⦃o : Ord A⦄ ⦃p : Ord B⦄ where
  abbrev pub pair_cmp : A × B → A × B → Ordering
  pair_cmp (a, b) (c, d) = then_cmp (o.cmp a c) (p.cmp b d)

  pub pair_cmp_eq : (x y : A × B) → (pair_cmp x y ≡ Ordering.eq) ↔ (x ≡ y)
  pair_cmp_eq (a, b) (c, d) = ground (arith, o.cmp_eq a c, p.cmp_eq b d)

  instance abbrev pub pair_ord : Ord (A × B)
  pair_ord = record { cmp = pair_cmp; cmp_eq = pair_cmp_eq }
