-- ===== src/Hash/Tests.antt =====
-- The theorems on the ring of src/hash.cpp at concrete rings, and runs of its code.
use kvproxy.Base.{
  ◌≡◌, ◌↔◌, refl, ◌⊎◌, Bool, true, false, Option, length, none, some, [], ◌∷◌, arith,
}
use kvproxy.Base.Order.{nat_ord, pair_ord, text_ord}
use kvproxy.Base.Text.{Text, codes}
use kvproxy.Crc.{crc32}
use kvproxy.Hash.{
  Owner, ConsistentHash, Increment, add_host, del_host, find, vnode_key, place_vnodes, new_hash,
}
use kvproxy.Util.{int2str}
use kvproxy.Hash.Sorted.{place_vnodes-IsSorted}
use kvproxy.Hash.Find.{Owns, find_iff_Owns}
use kvproxy.Hash.Moves.{find-add_host}
use kvproxy.Hash.Removal.{LosesOnly, find-del_host}
use kvproxy.Hash.Restore.{IsPlaced, place_vnodes-IsPlaced, add_host-del_host}

abbrev first_host : Owner
first_host = (codes "127.0.0.1:11211", 1)

abbrev second_host : Owner
second_host = (codes "127.0.0.1:11212", 2)

-- The first host with two points, and the second with one.
abbrev two_hosts : ConsistentHash
two_hosts = record {
  hash = (100, first_host) ∷ (2000000000, second_host) ∷ (4000000000, first_host) ∷ [];
  hash_tmp = [];
  locked = false;
}

-- The points of a host with index 1 and weight 2.
points_run :
    (vnode_key 1 0 ≡ crc32 0 (some (codes "1-0")))
    × (vnode_key 1 11 ≡ crc32 0 (some (codes "1-11")))
unfolding vnode_key int2str
points_run = (refl, refl)

find_run : find (codes "123456789") two_hosts ≡ first_host
unfolding find crc32
find_run = refl

find_iff_Owns_example :
    (find (codes "123456789") two_hosts ≡ first_host)
    ↔ Owns two_hosts.hash (crc32 0 (some (codes "123456789"))) first_host
find_iff_Owns_example =
    find_iff_Owns (codes "123456789") first_host two_hosts (omega arith) (λ e. cc)

find-add_host_example :
    ((find (codes "a") (add_host second_host 2 3 two_hosts).1 ≡ second_host)
      ⊎ (find (codes "a") (add_host second_host 2 3 two_hosts).1 ≡ find (codes "a") two_hosts))
    × ((add_host second_host 2 3 two_hosts).0 ≡ true)
find-add_host_example = find-add_host (codes "a") second_host 2 3 two_hosts (omega arith)

-- An increment that leads to the end of the map, and one that leads back to its first entry.
abbrev to_end : Increment
to_end k ring = some (length ring)

abbrev to_start : Increment
to_start k ring = some 0

-- The second point of the first host is left.
abbrev one_point_left : ConsistentHash
one_point_left = record two_hosts {
  hash = (2000000000, second_host) ∷ (4000000000, first_host) ∷ [];
  hash_tmp = two_hosts.hash;
}

find-del_host_example :
    LosesOnly 1 two_hosts.hash one_point_left.hash
    × ((key : Text) → ((find key two_hosts).1 ≡ 1) ⊎ (find key one_point_left ≡ find key two_hosts))
unfolding del_host
find-del_host_example = find-del_host to_end 1 true two_hosts one_point_left (omega arith) refl

-- Where it leads back, both points of the first host are gone.
both_points :
    del_host to_start 1 two_hosts
    ≡ some (
      true,
      record two_hosts { hash = (2000000000, second_host) ∷ []; hash_tmp = two_hosts.hash },
    )
unfolding del_host
both_points = refl

-- A ring with the two points of the first host, and one of the second.
abbrev placed_ring : ConsistentHash
placed_ring = record new_hash { hash = place_vnodes 1 0 1 first_host ((100, second_host) ∷ []) }

placed : IsPlaced first_host 1 1 placed_ring.hash
placed = place_vnodes-IsPlaced first_host 1 1 ((100, second_host) ∷ []) (λ q u e. ground arith)

abbrev ring_of : Option (Bool × ConsistentHash) → ConsistentHash
ring_of none = new_hash
ring_of (some (b, h)) = h

add_host-del_host_example :
    (true ≡ true)
    × ((add_host first_host 1 1 (ring_of (del_host to_end 1 placed_ring))).1.hash
        ≡ placed_ring.hash)
unfolding del_host place_vnodes vnode_key int2str crc32
add_host-del_host_example =
    add_host-del_host to_end true first_host 1 1 placed_ring
      (ring_of (del_host to_end 1 placed_ring))
      (place_vnodes-IsSorted 1 0 1 first_host ((100, second_host) ∷ []) (omega arith)) refl placed
      refl
