-- ===== src/Start/Hosts/Prepared.antt =====
-- What the calls of setHosts in `main` of src/kvproxy.cpp leave for the next.
use kvproxy.Base.{ℕ, ◌≡◌, refl, ap, subst, inl, inr, Option, none, some, [], Option-cases}
use mathlib.Core.Option.{some-injective}
use kvproxy.Base.Order.{nat_ord, text_ord, pair_ord}
use kvproxy.Base.Map.{Map}
use kvproxy.Base.Text.{Text}
use kvproxy.System.{System}
use kvproxy.ConnPool.{ConnList}
use kvproxy.Hash.{new_hash}
use kvproxy.Proxy.State.{Hosts}
use kvproxy.Proxy.Setup.{Kind, Setup, add_hosts, set_hosts}
use kvproxy.Proxy.Setup.Kept.{IsSetUp, set_hosts-IsSetUp}
use kvproxy.Start.Hosts.{Started, group_of, call_set_hosts}
use kvproxy.Start.Hosts.Kinds.{RingMembers}
use kvproxy.Start.Hosts.Loop.{
  NoMarks, InLoop, GoesOn, add_hosts-GoesOn, set_rings-InLoop, none_found,
}

-- What holds of the hosts between two calls of setHosts.
pub record IsPrepared (p : Hosts) : Type 0 where
  pub set_up : IsSetUp p
  pub rings : RingMembers p
  pub unmarked : NoMarks p

module _ (sys : System) (junk thread_count : ℕ) where
  set_hosts-IsPrepared :
      (kind : Kind) (host_group : Map Text Text) (p : Hosts) (pool : ConnList) (w : sys.World)
      (t : Setup sys junk thread_count kind)
      → IsPrepared p
      → set_hosts sys junk thread_count kind host_group p pool w ≡ some t
      → IsPrepared t.hosts
  unfolding set_hosts
  set_hosts-IsPrepared kind host_group p pool w t v e =
      let start : Setup sys junk thread_count kind = record {
        hosts = p;
        pool = pool;
        world = w;
        hosts_tmp = [];
      } in
      elim (Option-cases (add_hosts sys junk thread_count kind host_group start)) [
        | inl ended ↦ absurd (nothing (rw (set_hosts, ended) at e))
        | inr (s, added) ↦
            let loop = subst (GoesOn sys junk thread_count kind) added (
              add_hosts-GoesOn sys junk thread_count kind host_group start
                (record { rings = v.rings; found = none_found kind p; unmarked = v.unmarked })) in
            let end : InLoop kind t.hosts t.hosts_tmp =
              subst (GoesOn sys junk thread_count kind) (rw (set_hosts, added) at e)
                (set_rings-InLoop sys junk thread_count kind s loop) in
            record {
              set_up =
                  set_hosts-IsSetUp sys junk thread_count kind host_group p pool w t v.set_up e;
              rings = end.rings;
              unmarked = end.unmarked;
            }
      ]
    where
      nothing : ◌≡◌ {A = Option (Setup sys junk thread_count kind)} none (some t) → ⊥
      nothing q = cc

  module _ (ext_name : Text) where
    abbrev Run : Type 0
    Run = Started sys junk thread_count ext_name

    pub call_set_hosts-IsPrepared :
        (kind : Kind) (type : Text) (s t : Run)
        → IsPrepared s.0
        → call_set_hosts sys junk thread_count ext_name kind type s ≡ some t
        → IsPrepared t.0
    unfolding call_set_hosts
    call_set_hosts-IsPrepared kind type (p, pool, w, conf) t v e =
        let group = (group_of ext_name type conf).0 in
        elim (Option-cases (set_hosts sys junk thread_count kind group p pool w)) [
          | inl ended ↦ absurd (no_run t (rw (call_set_hosts, ended) at e))
          | inr (u, ran) ↦
              subst IsPrepared
                (ap (λ (x : Run). x.0) (some-injective _ _ (rw (call_set_hosts, ran) at e)))
                (set_hosts-IsPrepared kind group p pool w u v ran)
        ]
      where
        no_run : (t : Run) → ◌≡◌ {A = Option Run} none (some t) → ⊥
        no_run t q = cc

-- A KvProxy before the first call of setHosts.
abbrev pub no_hosts : Hosts
no_hosts = record {
  host_alias = [];
  host_infos = [];
  host_offline = [];
  hosts_default = [];
  hosts_read = [];
  hosts_backup = [];
  hash = new_hash;
  hash_backup = new_hash;
  hash_read = new_hash;
  st_fail = [];
  st_cont_fail = [];
  alias_count = 0;
}

pub no_hosts-IsPrepared : IsPrepared no_hosts
no_hosts-IsPrepared = record {
  set_up = record { hash = tt; hash_read = tt; hash_backup = tt };
  rings = record {
    hash = record { free = refl; members = λ q u b l. absurd (cc) };
    hash_read = record { free = refl; members = λ q u b l. absurd (cc) };
    hash_backup = record { free = refl; members = λ q u b l. absurd (cc) };
  };
  unmarked = λ a. refl;
}
