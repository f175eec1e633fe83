-- ===== src/Proxy/Status/Tests.antt =====
-- The theorem on `getStatus` of src/kvproxy.cpp at concrete counters.
use kvproxy.Base.{◌%◌, ◌^◌, ◌≡◌, refl, true, false, [], ◌∷◌, length}
use kvproxy.Base.Word.{slt32}
use kvproxy.Base.Text.{codes}
use kvproxy.Util.{int2str}
use kvproxy.System.Example.{steady}
use kvproxy.Hash.{new_hash}
use kvproxy.ConnPool.{get_connection_size}
use kvproxy.Proxy.State.{Hosts}
use kvproxy.Proxy.Status.{host_line, thousandth, Counters, requests, content, get_status}
use kvproxy.Proxy.Status.Report.{
  sum_of, marked, fail_lines, offline_lines, SameAliases, get_status-report,
}

abbrev two_hosts : Hosts
two_hosts = record {
  host_alias = (1, (codes "10.0.0.1", 11211)) ∷ (2, (codes "10.0.0.2", 11211)) ∷ [];
  host_infos = [];
  host_offline = (1, true) ∷ (2, false) ∷ [];
  hosts_default = [];
  hosts_read = [];
  hosts_backup = [];
  hash = new_hash;
  hash_backup = new_hash;
  hash_read = new_hash;
  st_fail = (1, 12) ∷ (2, 3) ∷ [];
  st_cont_fail = (1, 10) ∷ (2, 0) ∷ [];
  alias_count = 2;
}

abbrev counters : Counters steady
counters = record {
  hosts = two_hosts;
  st_req = 40;
  st_conn = 4294967295;
  conn_pool = (1, (codes "10.0.0.1", (11211, 7) ∷ []) ∷ []) ∷ [];
  recv_timeout = 100000;
  async_req = [];
  world = (0, []);
}

line_run : host_line (codes "h", 80) (codes "3") ≡ codes "  - h:80 [3]\n"
unfolding int2str
line_run = refl

get_status-report_example :
    ((get_status steady counters).0
      ≡ content
          (requests 40)
          (fail_lines two_hosts.host_alias two_hosts.st_fail)
          (sum_of two_hosts.st_fail % 2 ^ 32)
          (fail_lines two_hosts.host_alias two_hosts.st_cont_fail)
          (sum_of two_hosts.st_cont_fail % 2 ^ 32)
          (offline_lines two_hosts.host_alias two_hosts.host_offline)
          (marked two_hosts.host_offline % 2 ^ 32)
          (get_status steady counters).1.st_conn
          (get_connection_size steady counters.conn_pool counters.world).0
          (thousandth 100000)
          (length counters.async_req % 2 ^ 32))
    × (slt32 (get_status steady counters).1.st_conn 0 ≡ false)
    × SameAliases (get_status steady counters).1.hosts.host_alias two_hosts.host_alias
get_status-report_example = get_status-report steady counters
