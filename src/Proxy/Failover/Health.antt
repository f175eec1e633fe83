-- ===== src/Proxy/Failover/Health.antt =====
-- `checkHealthThread` of src/kvproxy.cpp: which hosts a round marks offline, and which it brings back.
use kvproxy.Base.{
  ℕ, ◌≡◌, refl, sym, ◌∙◌, ap, subst, inl, inr, Bool, true, false, ◌&&◌, ◌||◌, Option, none, some,
  [], ◌∷◌, arith, Bool-cases, Option-cases, ◌==◌, ==_iff,
}
use mathlib.Core.Option.{some-injective}
use kvproxy.Base.Order.{nat_ord}
use kvproxy.Base.Map.{Map, lookup, at, at-insert}
use kvproxy.Base.Text.{Text}
use kvproxy.Hash.{Increment}
use kvproxy.Proxy.State.{Hosts, has}
use kvproxy.Proxy.Failover.Offline.{take_offline-Taken}
use kvproxy.Proxy.Failover.{
  take_offline, touch_offline, failover_del, failover, failing, check_online, ◌>>=◌,
}

abbrev pub offline : ℕ → Hosts → Bool
offline a p = at a false p.host_offline

pub touch-marks : (a j : ℕ) (p : Hosts) → offline j (touch_offline a p) ≡ offline j p
touch-marks a j p = ground (arith, at-insert a j (offline a p) false p.host_offline, ==_iff a j)

pub result_eq :
    {b c : Bool} (x y : Hosts) → ◌≡◌ {A = Option (Bool × Hosts)} (some (b, x)) (some (c, y)) → x ≡ y
result_eq x y e = ap (λ (r : Bool × Hosts). r.1) (some-injective _ _ e)

-- The marks after a host has been reported: its own is set if it is known, the others are as they were.
abbrev Marked : ℕ → ℕ → Hosts → Hosts → Type 0
Marked a j p q =
    (offline j q ≡ (offline j p || (a == j && has a p.host_alias))) × (q.host_alias ≡ p.host_alias)

pub failover_del-off :
    (to : Increment) (a : ℕ) (p : Hosts)
    → offline a p ≡ true
    → failover_del to a p ≡ some (true, touch_offline a p)
unfolding failover_del
failover_del-off to a p off = ground arith

pub failover_del-unknown :
    (to : Increment) (a : ℕ) (p : Hosts)
    → offline a p ≡ false
    → lookup a p.host_alias ≡ none
    → failover_del to a p ≡ some (false, touch_offline a p)
unfolding failover_del
failover_del-unknown to a p on unknown = ground arith

pub failover_del-known :
    (to : Increment) (a : ℕ) (p : Hosts) {alias : Text × ℕ}
    → offline a p ≡ false
    → lookup a p.host_alias ≡ some alias
    → failover_del to a p ≡ (take_offline to a (touch_offline a p) >>= λ r. some (true, r))
unfolding failover_del
failover_del-known to a p on known = ground arith

failover_del-marks :
    (to : Increment) (b : Bool) (a j : ℕ) (p q : Hosts)
    → failover_del to a p ≡ some (b, q)
    → Marked a j p q
failover_del-marks to b a j p q e = elim (Bool-cases (offline a p)) [
  | inl off ↦
      subst (Marked a j p) (result_eq _ q (sym (failover_del-off to a p off) ∙ e))
        (touch-marks a j p ∙ ground (arith, ==_iff a j), refl)
  | inr on ↦ elim (Option-cases (lookup a p.host_alias)) [
    | inl unknown ↦
        subst (Marked a j p) (result_eq _ q (sym (failover_del-unknown to a p on unknown) ∙ e))
          (touch-marks a j p ∙ ground (arith, ==_iff a j), refl)
    | inr (alias, known) ↦ elim (Option-cases (take_offline to a (touch_offline a p))) [
      | inl lost ↦ absurd (ground (arith, failover_del-known to a p on known))
      | inr (r, taken) ↦
          let v = take_offline-Taken to a (touch_offline a p) r taken in
          let marks = v.marked in
          let aliases = v.alias in
          subst (Marked a j p)
            (result_eq {b = true} r q (sym (failover_del-known to a p on known ∙ rw taken) ∙ e))
            (
              ground (
                arith,
                at-insert a j true false (touch_offline a p).host_offline,
                touch-marks a j p,
              ),
              aliases,
            )
    ]
  ]
]

-- The host has reached the threshold in the thread's copy of st_cont_fail.
abbrev pub due : ℕ → ℕ → Map ℕ ℕ → Bool
due threshold j [] = false
due threshold j ((a, fails) ∷ it) = (failing threshold fails && a == j) || due threshold j it

or_once : (a b c : Bool) → ((a || b) || (c && b)) ≡ (a || b)
or_once a b c = ground arith

or_false : (a : Bool) → (a || false) ≡ a
or_false a = ground arith

same_mark :
    (off later : Bool) (a j : ℕ) (f : Bool) (p : Hosts)
    → f ≡ true
    → ((off || (a == j && has a p.host_alias)) || (later && has j p.host_alias))
      ≡ (off || (((f && a == j) || later) && has j p.host_alias))
same_mark off later a j f p e = elim (Bool-cases (a == j)) [
  | inl s ↦
      let same : a ≡ j = (==_iff a j).0 s in
      rw (e, s, same) (or_once off (has j p.host_alias) later)
  | inr n ↦ rw (e, n) (ap (λ b. b || (later && has j p.host_alias)) (or_false off))
]

check_step :
    (to : Increment) (b : Bool) (threshold j a fails : ℕ) (it : Map ℕ ℕ) (p r q : Hosts)
    → failing threshold fails ≡ true
    → Marked a j p r
    → (offline j q ≡ (offline j r || (due threshold j it && has j r.host_alias)))
      × (q.host_alias ≡ r.host_alias)
    → (offline j q ≡ (offline j p || (due threshold j ((a, fails) ∷ it) && has j p.host_alias)))
      × (q.host_alias ≡ p.host_alias)
check_step to b threshold j a fails it p r q f (m, ma) (n, na) = (
  n ∙ rw (ma, m) (same_mark (offline j p) (due threshold j it) a j (failing threshold fails) p f),
  na ∙ ma,
)

none-ne-some : {q : Hosts} → ◌≡◌ {A = Option Hosts} none (some q) → ⊥
none-ne-some e = cc

pub check_online_lem :
    (to : Increment) (threshold j : ℕ) (it : Map ℕ ℕ) (p q : Hosts)
    → check_online to threshold it p ≡ some q
    → (offline j q ≡ (offline j p || (due threshold j it && has j p.host_alias)))
      × (q.host_alias ≡ p.host_alias)
unfolding check_online failover
check_online_lem to threshold j [] p q e =
    subst (λ r. (offline j r ≡ (offline j p || false)) × (r.host_alias ≡ p.host_alias))
      (some-injective _ _ e) (ground arith, refl)
check_online_lem to threshold j ((a, fails) ∷ it) p q e =
    elim (Bool-cases (failing threshold fails)) [
      | inr fine ↦
          let (n, na) = check_online_lem to threshold j it p q (rw fine at e) in
          (n ∙ rw fine refl, na)
      | inl bad ↦ elim (Option-cases (failover_del to a p)) [
        | inl lost ↦ absurd (none-ne-some (rw (bad, lost) at e))
        | inr ((b, r), done) ↦
            check_step to b threshold j a fails it p r q bad (failover_del-marks to b a j p r done)
              (check_online_lem to threshold j it r q (rw (bad, done) at e))
      ]
    ]
