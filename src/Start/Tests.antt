-- ===== src/Start/Tests.antt =====
-- The start of src/kvproxy.cpp with two hosts in the configuration.
use kvproxy.Base.{ℕ, ◌≡◌, refl, false, Option, none, some, [], ◌∷◌}
use kvproxy.Base.Order.{nat_ord, text_ord, pair_ord}
use kvproxy.Base.Text.{codes}
use kvproxy.System.Example.{steady}
use kvproxy.Util.{str2int, int2str}
use kvproxy.Config.{Conf}
use kvproxy.ConnPool.{init_connection}
use kvproxy.Proxy.Failover.Safe.{AllGuarded}
use kvproxy.Proxy.Failover.Health.{offline}
use kvproxy.Proxy.State.{set_host_alias}
use kvproxy.Start.Hosts.{Started, start_hosts}
use kvproxy.Start.Hosts.Prepared.{no_hosts}
use kvproxy.Start.Hosts.Guarded.{start_hosts-AllGuarded}

-- Two hosts, of which the second is a backup.
abbrev conf : Conf
conf =
    (
      codes "mc",
      (codes "hosts", codes "one")
          ∷ (codes "hosts_backup", codes "two")
          ∷ (codes "hosts_read", [])
          ∷ [],
    )
    ∷ (codes "one", (codes "10.0.0.1:80", codes "1:1") ∷ [])
    ∷ (codes "two", (codes "10.0.0.2:80", codes "2:1") ∷ [])
    ∷ []

abbrev at_start : Started steady 0 1 (codes "mc")
at_start = (no_hosts, [], (0, []), conf)

abbrev after_hosts : Option (Started steady 0 1 (codes "mc"))
after_hosts = start_hosts steady 0 1 (codes "mc") at_start

abbrev or_start : Option (Started steady 0 1 (codes "mc")) → Started steady 0 1 (codes "mc")
or_start none = at_start
or_start (some t) = t

start_hosts-AllGuarded_example :
    AllGuarded (or_start after_hosts).0 × ((a : ℕ) → offline a (or_start after_hosts).0 ≡ false)
unfolding start_hosts str2int int2str init_connection
start_hosts-AllGuarded_example =
    start_hosts-AllGuarded steady 0 1 (codes "mc") [] (0, []) conf (or_start after_hosts) refl

-- Both hosts have an alias, and none is offline.
start_run :
    (or_start after_hosts).0.host_alias
    ≡ (1, (codes "10.0.0.1", 80)) ∷ (2, (codes "10.0.0.2", 80)) ∷ []
unfolding start_hosts str2int int2str init_connection set_host_alias
start_run = refl
