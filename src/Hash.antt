-- ===== src/Hash.antt =====
-- src/hash.h and src/hash.cpp: the ring of consistent hashing. A `std::map` is the list of its
-- entries in key order (Base.Map), an iterator the part of it from its entry on.
pub mod Sorted
pub mod Find
pub mod Moves
pub mod Removal
pub mod Restore
mod Tests
use kvproxy.Base.{
  ℕ, zero, suc, ◌+◌, Bool, true, false, ◌||◌, Option, none, some, [], ◌∷◌, ◌++◌, length, drop, ltb,
  ◌==◌, if◌then◌else◌,
}
use kvproxy.Base.Order.{nat_ord, pair_ord, text_ord}
use kvproxy.Base.Map.{Map, insert, erase}
use kvproxy.Base.Text.{Text, codes}
use kvproxy.Util.{int2str}
use kvproxy.Crc.{crc32}

-- A host as the ring stores it: "host:port" and its alias index.
abbrev pub Owner : Type 0
Owner = Text × ℕ

-- hash_type: from a crc32 key to the host that owns it.
abbrev pub Ring : Type 0
Ring = Map ℕ Owner

-- The hosts given to the ring, with their index and weight.
abbrev pub Hosts : Type 0
Hosts = Map Owner (ℕ × ℕ)

pub record ConsistentHash : Type 0 where
  pub hash : Ring
  pub hash_tmp : Ring
  -- Another thread holds `_lock`, so `pthread_mutex_trylock` fails.
  pub locked : Bool

abbrev pub new_hash : ConsistentHash
new_hash = record { hash = []; hash_tmp = []; locked = false }

-- sprintf(str_key, "%d-%d", index, i); crc32(0, str_key, strlen(str_key))
unfoldable pub vnode_key : ℕ → ℕ → ℕ
vnode_key index i = crc32 0 (some (int2str index ++ b'-' ∷ int2str i))

-- The inner loop from `i` on, with n rounds left.
unfoldable pub place_vnodes : ℕ → ℕ → ℕ → Owner → Ring → Ring
place_vnodes zero i index host ring = ring
place_vnodes (suc n) i index host ring =
    place_vnodes n (i + 1) index host (insert (vnode_key index i) host ring)

-- The outer loop over the hosts.
unfoldable pub place_hosts : Hosts → Ring → Ring
unfolding place_vnodes
place_hosts [] ring = ring
place_hosts ((host, (index, weight)) ∷ hosts) ring =
    place_hosts hosts (place_vnodes weight 0 index host ring)

-- createVNodes: whether the lock was free, and the ring afterwards. `swap` leaves the old ring
-- in `_hash_tmp`.
unfoldable pub create_v_nodes : Hosts → ConsistentHash → Bool × ConsistentHash
unfolding place_hosts
create_v_nodes hosts h =
    if h.locked
    then (false, h)
    else (true, record h { hash = place_hosts hosts h.hash; hash_tmp = h.hash })

-- _hash.empty()
abbrev pub is_empty : Ring → Bool
is_empty [] = true
is_empty (_ ∷ _) = false

unfoldable pub set_hosts : Hosts → Bool → ConsistentHash → ConsistentHash
unfolding create_v_nodes
set_hosts hosts force h = if is_empty h.hash || force then (create_v_nodes hosts h).1 else h

-- Where the increment of an erased iterator leads, which C++ leaves undefined: for the key of the
-- entry that was erased and the map as it is then, the position in the map, which may be any (one behind
-- its entries is its end), or `none` where it leads out of the map: what the program does then is
-- open, and it may crash.
abbrev pub Increment : Type 0
Increment = ℕ → Ring → Option ℕ

-- The key of the next entry of the host, from an iterator on.
abbrev pub next_entry : ℕ → Ring → Option ℕ
next_entry alias_index [] = none
next_entry alias_index ((k, (host, a)) ∷ it) =
    if a == alias_index then some k else next_entry alias_index it

-- The loop of `delHost` at an iterator `it` into `ring`. The fuel is the number of entries that it may still erase.
unfoldable pub del_loop : Increment → ℕ → ℕ → Ring → Ring → Option Ring
del_loop to alias_index zero it ring = elim (next_entry alias_index it) [
  | none ↦ some ring
  | some k ↦ none
]
del_loop to alias_index (suc fuel) it ring = elim (next_entry alias_index it) [
  | none ↦ some ring
  | some k ↦ elim (to k (erase k ring)) [
    | none ↦ none
    | some i ↦ del_loop to alias_index fuel (drop i (erase k ring)) (erase k ring)
  ]
]

abbrev swap_in : ConsistentHash → Option Ring → Option (Bool × ConsistentHash)
swap_in h none = none
swap_in h (some ring) = some (true, record h { hash = ring; hash_tmp = h.hash })

-- The fuel is the number of entries: Hash.Removal shows that it is enough.
unfoldable pub del_host : Increment → ℕ → ConsistentHash → Option (Bool × ConsistentHash)
unfolding del_loop
del_host to alias_index h =
    if h.locked
    then some (false, h)
    else swap_in h (del_loop to alias_index (length h.hash) h.hash h.hash)

unfoldable pub add_host : Owner → ℕ → ℕ → ConsistentHash → Bool × ConsistentHash
unfolding create_v_nodes
add_host host index weight = create_v_nodes (insert host (index, weight) [])

-- _hash.lower_bound(k)
unfoldable pub lower_bound : ℕ → Ring → Ring
lower_bound k [] = []
lower_bound k ((j, host) ∷ ring) =
    let rest = lower_bound k ring in if ltb j k then rest else (j, host) ∷ ring

abbrev pub no_found : Owner
no_found = (codes "no_found", 0)

-- The entry at the iterator, or at `begin()` where the iterator is at the end.
unfoldable pub entry_at : Owner → Ring → Owner
entry_at first [] = first
entry_at first ((j, host) ∷ it) = host

-- `find` from its crc32 key on.
unfoldable pub find_key : ℕ → Ring → Owner
unfolding lower_bound entry_at
find_key k [] = no_found
find_key k ((j, host) ∷ ring) = entry_at host (lower_bound k ((j, host) ∷ ring))

-- Both overloads of `find`: `key` is the whole string, or the key_len bytes at the pointer.
unfoldable pub find : Text → ConsistentHash → Owner
unfolding find_key
find key h = find_key (crc32 0 (some key)) h.hash

unfoldable pub get_size : ConsistentHash → ℕ
get_size h = length h.hash
