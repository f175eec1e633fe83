-- ===== src/Proxy/Tests.antt =====
-- The theorems on src/kvproxy.cpp at a proxy with two hosts, and runs of its code.
use mathlib.Core.Bool.{false≢true}
use kvproxy.Base.{
  ℕ, ◌≡◌, ◌≢◌, sym, ap, refl, Bool, Option, none, length, true, false, not, ◌&&◌, some, List, [],
  ◌∷◌, ◌==◌, if◌then◌else◌, arith,
}
use kvproxy.Base.Order.{nat_ord, text_ord}
use kvproxy.Base.Map.{same_key, at}
use kvproxy.Base.Text.{Text, codes}
use kvproxy.Extension.{Req}
use kvproxy.Hash.{ConsistentHash, new_hash, place_vnodes, vnode_key, del_host, Increment}
use kvproxy.Util.{int2str}
use kvproxy.Crc.{crc32}
use kvproxy.Hash.Sorted.{IsSorted, place_vnodes-IsSorted}
use kvproxy.Hash.Restore.{IsPlaced, place_vnodes-IsPlaced}
use kvproxy.Proxy.State.{Hosts, set_host_alias, count_fail, init_var}
use kvproxy.Proxy.State.Counted.{IsCounted, count_fail-IsCounted}
use kvproxy.Proxy.State.Aliases.{IsAliased, IsGiven, set_host_alias-IsGiven}
use kvproxy.Proxy.Failover.{
  failover, check_online, check_offline, check_health, host_port, failover_del, take_offline,
  del_from,
}
use kvproxy.Proxy.Failover.Offline.{AllSorted, HasLeft, failover-offline}
use kvproxy.Proxy.Failover.Online.{AllInPlace, failover-online}
use kvproxy.Proxy.Failover.Health.{offline, check_online_lem}
use kvproxy.Proxy.Failover.Recovery.{Restored, check_offline-marks}
use kvproxy.Proxy.Group.{Rings, create_req_group}
use kvproxy.Proxy.Group.Routes.{keep, to_main, to_copy, is_sync}
use kvproxy.Proxy.Group.Each.{with_each, create_req_group_lem}

abbrev one : Text × ℕ
one = (codes "10.0.0.1", 11211)

abbrev two : Text × ℕ
two = (codes "10.0.0.2", 11211)

-- The points of the first host, with index 1 and weight 1, and one of the second.
abbrev ring : ConsistentHash
ring = record new_hash {
  hash = place_vnodes 1 0 1 (host_port one, 1) ((100, (host_port two, 2)) ∷ []);
}

-- The first host serves keys and reads, the second keys alone.
abbrev hosts : Hosts
hosts = record {
  host_alias = (1, one) ∷ (2, two) ∷ [];
  host_infos = (1, (1, 1)) ∷ (2, (2, 1)) ∷ [];
  host_offline = (1, false) ∷ (2, false) ∷ [];
  hosts_default = (1, tt) ∷ (2, tt) ∷ [];
  hosts_read = (1, tt) ∷ [];
  hosts_backup = [];
  hash = ring;
  hash_backup = new_hash;
  hash_read = ring;
  st_fail = (1, 5) ∷ (2, 0) ∷ [];
  st_cont_fail = (1, 5) ∷ (2, 0) ∷ [];
  alias_count = 2;
}

ring-IsSorted : IsSorted ring.hash
ring-IsSorted =
    place_vnodes-IsSorted 1 0 1 (host_port one, 1) ((100, (host_port two, 2)) ∷ []) (omega arith)

ring-IsPlaced : IsPlaced (host_port one, 1) 1 1 ring.hash
ring-IsPlaced =
    place_vnodes-IsPlaced (host_port one, 1) 1 1 ((100, (host_port two, 2)) ∷ [])
      (λ q u e. ground arith)

new_hash-IsSorted : IsSorted new_hash.hash
new_hash-IsSorted = tt

hosts-AllSorted : AllSorted hosts
hosts-AllSorted = record {
  hash = ring-IsSorted;
  hash_read = ring-IsSorted;
  hash_backup = new_hash-IsSorted;
}

-- The increment of an erased iterator leads to the end of the map.
abbrev to_end : Increment
to_end k ring = some (length ring)

abbrev hosts_of : Option (Bool × Hosts) → Hosts
hosts_of none = hosts
hosts_of (some (b, p)) = p

abbrev without_one : Hosts
without_one = hosts_of (failover to_end 1 true hosts)

one_goes : failover to_end 1 true hosts ≡ some (true, without_one)
unfolding failover failover_del take_offline del_from del_host place_vnodes vnode_key int2str crc32
one_goes = refl

failover-offline_example :
    (true ≡ true)
    × HasLeft 1 ring without_one.hash
    × HasLeft 1 ring without_one.hash_read
    × HasLeft 1 new_hash without_one.hash_backup
    × (at 1 false without_one.host_offline ≡ true)
failover-offline_example =
    failover-offline to_end 1 true one hosts without_one hosts-AllSorted refl refl one_goes

hosts-AllInPlace : AllInPlace 1 one 1 1 hosts
hosts-AllInPlace = record {
  hash = record { sorted = ring-IsSorted; free = refl; placed = λ e. ring-IsPlaced };
  hash_read = record { sorted = ring-IsSorted; free = refl; placed = λ e. ring-IsPlaced };
  hash_backup = record { sorted = new_hash-IsSorted; free = refl; placed = λ e. absurd (cc) };
}

failover-online_example :
    (true ≡ true)
    × (r : Hosts) × (failover to_end 1 false without_one ≡ some (true, r))
    × (r.hash.hash ≡ ring.hash)
    × (r.hash_read.hash ≡ ring.hash)
    × (r.hash_backup.hash ≡ [])
    × (at 1 false r.host_offline ≡ false)
failover-online_example =
    failover-online to_end 1 true one 1 1 hosts without_one hosts-AllInPlace refl refl refl one_goes

abbrev or_hosts : Option Hosts → Hosts
or_hosts none = hosts
or_hosts (some p) = p

-- The first host has failed five times in a row, and the threshold is 3.
abbrev checked : Hosts
checked = or_hosts (check_online to_end 3 hosts.st_cont_fail hosts)

run_3 : check_online to_end 3 hosts.st_cont_fail hosts ≡ some checked
unfolding check_online failover failover_del take_offline del_from del_host place_vnodes vnode_key
    int2str crc32
run_3 = refl

check_online_kept : (offline 2 checked ≡ false) × (checked.host_alias ≡ hosts.host_alias)
check_online_kept = check_online_lem to_end 3 2 hosts.st_cont_fail hosts checked run_3

abbrev one_is_off : Hosts
one_is_off = record hosts { host_offline = (1, true) ∷ (2, false) ∷ [] }

-- It can be reached again.
check_offline-marks_example :
    Restored true 1 one_is_off
      (check_offline (λ host port. true) hosts.host_alias one_is_off.host_offline one_is_off)
check_offline-marks_example =
    check_offline-marks (λ host port. true) hosts.host_alias one_is_off.host_offline 1 one_is_off

-- A request for the key that stands at a place of a buffer.
abbrev get_of : ℕ → ℕ → Req
get_of p n = record {
  key = p;
  key_len = n;
  content = p;
  content_len = n;
  update = false;
  each = false;
  ext = 101;
}

-- Both rings for the keys "a" and "b", and a request for all hosts.
abbrev rings : Rings
rings = record {
  hash = ring;
  hash_read = ring;
  hash_backup = new_hash;
  sync_str = codes "sync_";
  mem = λ i. if i == 0 then b'a' else b'b';
}

abbrev each_host : Req
each_host = record (get_of 0 0) { each = true }

abbrev requests : List Req
requests = get_of 0 1 ∷ each_host ∷ get_of 1 1 ∷ []

create_req_group_lem_example :
    (at 2 [] (create_req_group rings requests).group
      ≡ with_each (keep (to_main rings 2) requests) (keep (λ r. r.each) requests))
    × (at 2 [] (create_req_group rings requests).backup
        ≡ with_each
            (keep (λ r. to_copy rings 2 r && not (is_sync rings r)) requests)
            (keep (λ r. r.each) requests))
    × (at 2 [] (create_req_group rings requests).sync
        ≡ keep (λ r. to_copy rings 2 r && is_sync rings r) requests)
create_req_group_lem_example = create_req_group_lem rings 2 requests

hosts-IsAliased : IsAliased hosts
hosts-IsAliased = record {
  rising = (omega arith, (omega arith, tt));
  below = λ a v e. ground arith;
  once = λ a b v e f. ground (arith, two_differ);
}
  where
    two_differ : one ≢ two
    two_differ q = absurd (false≢true (sym (ap (λ (x : Text × ℕ). same_key one.0 x.0) q)))

-- A third host.
set_host_alias-IsGiven_example :
    IsGiven
      (codes "10.0.0.3")
      11211
      hosts
      hosts-IsAliased
      (omega arith)
      (set_host_alias (codes "10.0.0.3") 11211 hosts)
set_host_alias-IsGiven_example =
    set_host_alias-IsGiven (codes "10.0.0.3") 11211 hosts hosts-IsAliased (omega arith)

hosts-IsCounted : IsCounted hosts
hosts-IsCounted a = ground arith

count_fail-IsCounted_example : IsCounted (count_fail true 1 hosts) × IsCounted (init_var hosts)
count_fail-IsCounted_example = count_fail-IsCounted true 1 hosts hosts-IsCounted

-- The first host fails, and cannot be reached.
abbrev after_round : Hosts
after_round = or_hosts (check_health to_end 3 (λ host port. false) hosts.host_alias hosts)
