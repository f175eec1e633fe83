-- ===== src/Start/Hosts/Guarded.antt =====
-- The hosts that `main` of src/kvproxy.cpp sets up are in order, and none is marked offline.
use kvproxy.Base.{
  ℕ, ◌≡◌, ap, subst, inl, inr, Bool, false, Option, none, some, [], ◌∷◌, arith, Option-cases,
}
use mathlib.Core.Option.{some-injective}
use kvproxy.Base.Order.{nat_ord, text_ord, pair_ord}
use kvproxy.Base.Map.{Map, insert, at, at-insert}
use kvproxy.Base.Text.{Text, codes}
use kvproxy.System.{System}
use kvproxy.Config.{Conf}
use kvproxy.ConnPool.{ConnList}
use kvproxy.Hash.{ConsistentHash}
use kvproxy.Hash.Sorted.{IsSorted}
use kvproxy.Proxy.State.{Hosts, IndexSet, init_var, init_var_loop}
use kvproxy.Proxy.Failover.Safe.{IsGuarded, AllGuarded}
use kvproxy.Proxy.Failover.Health.{offline}
use kvproxy.Proxy.Setup.{Kind, default, backup, read}
use kvproxy.Start.Hosts.{Started, call_set_hosts, start_hosts}
use kvproxy.Start.Hosts.Members.{HasMembers}
use kvproxy.Start.Hosts.Loop.{NoMarks}
use kvproxy.Start.Hosts.Prepared.{
  IsPrepared, call_set_hosts-IsPrepared, no_hosts, no_hosts-IsPrepared,
}

still_unmarked :
    (a j : ℕ) (marks : Map ℕ Bool)
    → at j false marks ≡ false
    → at j false (insert a false marks) ≡ false
still_unmarked a j marks e = ground (arith, at-insert a j false false marks)

unmarked-IsGuarded :
    (a : ℕ) (marks : Map ℕ Bool) (set : IndexSet) (h : ConsistentHash)
    → IsGuarded marks set h
    → IsGuarded (insert a false marks) set h
unmarked-IsGuarded a marks set h v = record {
  sorted = v.sorted;
  free = v.free;
  owners = λ q u b l. let (m, e) = v.owners q u b l in (m, still_unmarked a b marks e);
}

init_var_loop-AllGuarded :
    (it : Map ℕ (Text × ℕ)) (p : Hosts)
    → AllGuarded p × NoMarks p
    → AllGuarded (init_var_loop it p) × NoMarks (init_var_loop it p)
unfolding init_var_loop
init_var_loop-AllGuarded [] p v = v
init_var_loop-AllGuarded ((a, host) ∷ it) p (v, n) = init_var_loop-AllGuarded it _ (
  record {
    hash = unmarked-IsGuarded a p.host_offline p.hosts_default p.hash v.hash;
    hash_read = unmarked-IsGuarded a p.host_offline p.hosts_read p.hash_read v.hash_read;
    hash_backup = unmarked-IsGuarded a p.host_offline p.hosts_backup p.hash_backup v.hash_backup;
  },
  λ j. still_unmarked a j p.host_offline (n j),
)

IsPrepared-AllGuarded : (p : Hosts) → IsPrepared p → AllGuarded p
IsPrepared-AllGuarded p v = record {
  hash = guard p.hosts_default p.hash v.set_up.hash v.rings.hash;
  hash_read = guard p.hosts_read p.hash_read v.set_up.hash_read v.rings.hash_read;
  hash_backup = guard p.hosts_backup p.hash_backup v.set_up.hash_backup v.rings.hash_backup;
}
  where
    guard :
        (set : IndexSet) (h : ConsistentHash)
        → IsSorted h.hash
        → HasMembers set h
        → IsGuarded p.host_offline set h
    guard set h s m = record {
      sorted = s;
      free = m.free;
      owners = λ q u b l. (m.members q u b l, v.unmarked b);
    }

module _ (sys : System) (junk thread_count : ℕ) (ext_name : Text) where
  abbrev Run : Type 0
  Run = Started sys junk thread_count ext_name

  abbrev setting : Kind → Text → Run → Option Run
  setting = call_set_hosts sys junk thread_count ext_name

  -- The three calls that a finished run has made.
  record Calls (s t : Run) : Type 0 where
    s1 : Run
    s2 : Run
    s3 : Run
    first : setting default (codes "hosts") s ≡ some s1
    second : setting backup (codes "hosts_backup") s1 ≡ some s2
    third : setting read (codes "hosts_read") s2 ≡ some s3
    ends : init_var s3.0 ≡ t.0

  no_run : (t : Run) → ◌≡◌ {A = Option Run} none (some t) → ⊥
  no_run t q = cc

  start_hosts-Calls :
      (s t : Run) → start_hosts sys junk thread_count ext_name s ≡ some t → Calls s t
  unfolding start_hosts
  start_hosts-Calls s t e = elim (Option-cases (setting default (codes "hosts") s)) [
    | inl ended ↦ absurd (no_run t (rw (start_hosts, ended) at e))
    | inr (s1, e1) ↦ elim (Option-cases (setting backup (codes "hosts_backup") s1)) [
      | inl ended ↦ absurd (no_run t (rw (start_hosts, e1, ended) at e))
      | inr (s2, e2) ↦ elim (Option-cases (setting read (codes "hosts_read") s2)) [
        | inl ended ↦ absurd (no_run t (rw (start_hosts, e1, e2, ended) at e))
        | inr (s3, e3) ↦ record {
          s1 = s1;
          s2 = s2;
          s3 = s3;
          first = e1;
          second = e2;
          third = e3;
          ends = ap (λ (x : Run). x.0) (some-injective _ _ (rw (start_hosts, e1, e2, e3) at e));
        }
      ]
    ]
  ]

init_var-AllGuarded : (p : Hosts) → IsPrepared p → AllGuarded (init_var p) × NoMarks (init_var p)
unfolding init_var
init_var-AllGuarded p v =
    init_var_loop-AllGuarded p.host_alias p (IsPrepared-AllGuarded p v, v.unmarked)

-- Whatever the configuration says, where the three calls of setHosts do not end the program, the hosts that
-- `main` starts with are in order: no host is marked offline, the locks of the three rings are free, the rings
-- are in key order, and each of their points is that of a host of the ring's set.
pub start_hosts-AllGuarded :
    (sys : System) (junk thread_count : ℕ) (ext_name : Text) (pool : ConnList) (w : sys.World)
    (conf : Conf) (t : Started sys junk thread_count ext_name)
    → start_hosts sys junk thread_count ext_name (no_hosts, pool, w, conf) ≡ some t
    → AllGuarded t.0 × ((a : ℕ) → offline a t.0 ≡ false)
start_hosts-AllGuarded sys junk n name pool w conf t e =
    let c = start_hosts-Calls sys junk n name (no_hosts, pool, w, conf) t e in
    let keep = call_set_hosts-IsPrepared sys junk n name in
    let v1 = keep default (codes "hosts") _ c.s1 no_hosts-IsPrepared c.first in
    let v2 = keep backup (codes "hosts_backup") c.s1 c.s2 v1 c.second in
    let v3 = keep read (codes "hosts_read") c.s2 c.s3 v2 c.third in
    subst (λ (p : Hosts). AllGuarded p × NoMarks p) c.ends (init_var-AllGuarded c.s3.0 v3)
