-- ===== src/Proxy/Failover/Recovery.antt =====
-- `checkHealthThread` of src/kvproxy.cpp: which hosts the second loop of a round brings back.
use kvproxy.Base.{
  ℕ, ◌≡◌, refl, ◌∙◌, inl, inr, Bool, true, false, not, ◌&&◌, ◌||◌, none, some, [], ◌∷◌, arith,
  Bool-cases, Option-cases, ◌==◌, if◌then◌else◌, ==_iff,
}
use kvproxy.Base.Order.{nat_ord}
use kvproxy.Base.Map.{Map, lookup, at, at-insert}
use kvproxy.Base.Text.{Text}
use kvproxy.Proxy.Failover.Health.{offline}
use kvproxy.Proxy.State.{Hosts, has, count_fail}
use kvproxy.Proxy.Failover.{take_online, touch_offline, failover_add, check_offline, Reachable}

-- A copied entry of host_offline says that the host is offline, and the host can be reached now.
abbrev pub reached : Reachable → Map ℕ (Text × ℕ) → ℕ → Bool
reached up alias a = elim (lookup a alias) [ none ↦ false | some host ↦ up host.0 host.1 ]

abbrev pub back : Reachable → Map ℕ (Text × ℕ) → ℕ → Map ℕ Bool → Bool
back up alias j [] = false
back up alias j ((a, off) ∷ it) = (off && (a == j && reached up alias a)) || back up alias j it

-- The host is known, with its index and weight.
abbrev pub known : ℕ → Hosts → Bool
known a p = has a p.host_alias && has a p.host_infos

-- What becomes of a host's mark and of its failures in a row, if `b` says that it is brought back.
abbrev pub Restored : Bool → ℕ → Hosts → Hosts → Type 0
Restored b j p q =
    (offline j q ≡ (offline j p && not (b && known j p)))
    × (at j 0 q.st_cont_fail ≡ (if b then 0 else at j 0 p.st_cont_fail))
    × (q.host_alias ≡ p.host_alias)
    × (q.host_infos ≡ p.host_infos)

failover_add-marks :
    (a j : ℕ) (p : Hosts)
    → let q = (failover_add a p).1 in
      (offline j q ≡ (offline j p && not (a == j && known j p)))
      × (q.st_cont_fail ≡ p.st_cont_fail)
      × (q.host_alias ≡ p.host_alias)
      × (q.host_infos ≡ p.host_infos)
unfolding failover_add take_online
failover_add-marks a j p = ground (
  arith,
  ==_iff a j,
  at-insert a j (offline a p) false p.host_offline,
  at-insert a j false false (touch_offline a p).host_offline,
)

Restored-trans :
    (b c : Bool) (j : ℕ) (p r q : Hosts)
    → Restored b j p r
    → Restored c j r q
    → Restored (b || c) j p q
Restored-trans b c j p r q (m, n, a, i) (m', n', a', i') =
    (m' ∙ rw (a, i, m) (ground arith), n' ∙ rw n (ground arith), a' ∙ a, i' ∙ i)

Restored-none : (j : ℕ) (p : Hosts) → Restored false j p p
Restored-none j p = (ground arith, refl, refl, refl)

bring_back-Restored :
    (a j : ℕ) (p : Hosts) → Restored (a == j) j p (count_fail false a (failover_add a p).1)
unfolding count_fail
bring_back-Restored a j p =
    let (m, n, aliases, infos) = failover_add-marks a j p in
    (m, at-insert a j 0 0 (failover_add a p).1.st_cont_fail ∙ rw n refl, aliases, infos)

and_false : (b : Bool) → (b && false) ≡ false
and_false b = ground arith

and_true : (b : Bool) → (b && true) ≡ b
and_true b = ground arith

-- What one entry of the copied map comes to.
abbrev entry_step : Reachable → Map ℕ (Text × ℕ) → ℕ → Bool → Hosts → Hosts
entry_step up alias a off p =
    if off
    then elim (lookup a alias) [
      | none ↦ p
      | some host ↦ if up host.0 host.1 then count_fail false a (failover_add a p).1 else p
    ]
    else p

Restored-eq :
    (b c : Bool) (r q : Hosts) (j : ℕ) (p : Hosts)
    → b ≡ c
    → r ≡ q
    → Restored c j p q
    → Restored b j p r
Restored-eq b c r q j p e f h = rw (e, f) h

entry_step-Restored :
    (up : Reachable) (alias : Map ℕ (Text × ℕ)) (a j : ℕ) (off : Bool) (p : Hosts)
    → Restored (off && (a == j && reached up alias a)) j p (entry_step up alias a off p)
entry_step-Restored up alias a j false p = Restored-none j p
entry_step-Restored up alias a j true p = elim (Option-cases (lookup a alias)) [
  | inl none_here ↦
      Restored-eq (a == j && reached up alias a) false (entry_step up alias a true p) p j p
        (rw (none_here, reached) (and_false (a == j))) (rw none_here) (Restored-none j p)
  | inr (host, e) ↦ elim (Bool-cases (up host.0 host.1)) [
    | inl u ↦
        Restored-eq (a == j && reached up alias a) (a == j) (entry_step up alias a true p)
          (count_fail false a (failover_add a p).1) j p (rw (e, reached, u) (and_true (a == j)))
          (rw (e, u)) (bring_back-Restored a j p)
    | inr u ↦
        Restored-eq (a == j && reached up alias a) false (entry_step up alias a true p) p j p
          (rw (e, reached, u) (and_false (a == j))) (rw (e, u)) (Restored-none j p)
  ]
]

-- The second loop of `checkHealthThread` marks online exactly the known hosts that the thread
-- found offline and could reach, and sets the failures in a row of those that it could reach to 0;
-- it changes neither the mark nor the count of any other host, and no alias.
pub check_offline-marks :
    (up : Reachable) (alias : Map ℕ (Text × ℕ)) (it : Map ℕ Bool) (j : ℕ) (p : Hosts)
    → Restored (back up alias j it) j p (check_offline up alias it p)
unfolding check_offline
check_offline-marks up alias [] j p = Restored-none j p
check_offline-marks up alias ((a, off) ∷ it) j p =
    Restored-trans (off && (a == j && reached up alias a)) (back up alias j it) j p
      (entry_step up alias a off p) (check_offline up alias it (entry_step up alias a off p))
      (entry_step-Restored up alias a j off p)
      (check_offline-marks up alias it j (entry_step up alias a off p))
