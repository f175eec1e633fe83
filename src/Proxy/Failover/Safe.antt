-- ===== src/Proxy/Failover/Safe.antt =====
-- The rings of src/kvproxy.cpp, their sets, and the marks in host_offline.
use kvproxy.Base.{ℕ, ◌≡◌, sym, ◌∙◌, ◌⊎◌, inl, inr, Bool, true, false, some, Bool-cases}
use mathlib.Core.Option.{some-injective}
use kvproxy.Base.Order.{nat_ord, pair_ord, text_ord}
use kvproxy.Base.Map.{Map, lookup, at}
use kvproxy.Base.Text.{Text}
use kvproxy.Hash.{Owner, Ring, ConsistentHash, place_vnodes}
use kvproxy.Hash.Sorted.{IsSorted}
use kvproxy.Hash.Restore.{lookup-place_vnodes, is_point}
use kvproxy.Proxy.State.{Hosts, IndexSet, has}

abbrev pub Marks : Type 0
Marks = Map ℕ Bool

-- A ring whose lock is free: it is in order, and each of its points is that of a host of its set
-- which is not marked offline.
pub record IsGuarded (marks : Marks) (set : IndexSet) (h : ConsistentHash) : Type 0 where
  pub sorted : IsSorted h.hash
  pub free : h.locked ≡ false
  pub owners :
      (q : ℕ) (u : Text) (b : ℕ)
      → lookup q h.hash ≡ some (u, b)
      → (has b set ≡ true) × (at b false marks ≡ false)

pub record AllGuarded (p : Hosts) : Type 0 where
  pub hash : IsGuarded p.host_offline p.hosts_default p.hash
  pub hash_read : IsGuarded p.host_offline p.hosts_read p.hash_read
  pub hash_backup : IsGuarded p.host_offline p.hosts_backup p.hash_backup

pub place_vnodes-owner :
    (n index q : ℕ) (host : Owner) (ring : Ring) (v : Owner)
    → lookup q (place_vnodes n 0 index host ring) ≡ some v
    → (v ≡ host) ⊎ (lookup q ring ≡ some v)
place_vnodes-owner n index q host ring v l = elim (Bool-cases (is_point n 0 index q)) [
  | inl hit ↦
      inl
        (sym (some-injective _ _ (rw hit at (sym (lookup-place_vnodes n 0 index host ring q)) ∙ l)))
  | inr miss ↦ inr (rw miss at (sym (lookup-place_vnodes n 0 index host ring q)) ∙ l)
]
