-- ===== src/Proxy/Setup/Tests.antt =====
-- `setHosts` of src/kvproxy.cpp on a section with two hosts.
use kvproxy.Base.{false, refl, [], ◌∷◌}
use kvproxy.Base.Order.{nat_ord, text_ord, pair_ord}
use kvproxy.Base.Map.{Map}
use kvproxy.Base.Text.{Text, codes}
use kvproxy.System.Example.{steady}
use kvproxy.Hash
use kvproxy.Hash.{new_hash}
use kvproxy.Util.{str2int, int2str}
use kvproxy.ConnPool.{init_connection}
use kvproxy.Proxy.State.{Hosts, set_host_alias}
use kvproxy.Proxy.Setup.{default, Setup, set_hosts}
use kvproxy.Proxy.Setup.Kept.{IsSetUp, set_hosts-IsSetUp}

abbrev fresh : Hosts
fresh = record {
  host_alias = [];
  host_infos = [];
  host_offline = [];
  hosts_default = [];
  hosts_read = [];
  hosts_backup = [];
  hash = new_hash;
  hash_backup = new_hash;
  hash_read = new_hash;
  st_fail = [];
  st_cont_fail = [];
  alias_count = 0;
}

abbrev host_group : Map Text Text
host_group = (codes "10.0.0.1:80", codes "1:1") ∷ (codes "10.0.0.2:80", codes "2:1") ∷ []

fresh-IsSetUp : IsSetUp fresh
fresh-IsSetUp = record { hash = tt; hash_read = tt; hash_backup = tt }

abbrev tmp : Hash.Hosts
tmp = ((codes "10.0.0.1:80", 1), (1, 1)) ∷ ((codes "10.0.0.2:80", 2), (2, 1)) ∷ []

-- Thread 0 has a connection to each.
abbrev started : Setup steady 0 1 default
started = record {
  hosts = record fresh {
    host_alias = (1, (codes "10.0.0.1", 80)) ∷ (2, (codes "10.0.0.2", 80)) ∷ [];
    host_infos = (1, (1, 1)) ∷ (2, (2, 1)) ∷ [];
    hosts_default = (1, tt) ∷ (2, tt) ∷ [];
    hash = Hash.set_hosts tmp false new_hash;
    alias_count = 2;
  };
  pool = (0, (codes "10.0.0.1", (80, 10) ∷ []) ∷ (codes "10.0.0.2", (80, 11) ∷ []) ∷ []) ∷ [];
  world = (2, []);
  hosts_tmp = tmp;
}

started-IsSetUp : IsSetUp started.hosts
unfolding set_hosts set_host_alias str2int int2str init_connection
started-IsSetUp =
    set_hosts-IsSetUp steady 0 1 default host_group fresh [] (0, []) started fresh-IsSetUp refl
