-- ===== src/Proxy/Group.antt =====
-- `createReqGroup` of src/kvproxy.cpp: which host each request of a client goes to.
pub mod Routes
pub mod Each
pub mod Idle
use kvproxy.Base.{
  ℕ, zero, suc, Bool, true, false, ◌&&◌, ◌||◌, not, List, [], ◌∷◌, ◌++◌, ltb, ◌==◌, if◌then◌else◌,
}
use kvproxy.Base.Order.{nat_ord}
use kvproxy.Base.Map.{Map, insert, at}
use kvproxy.Base.Word.{add32}
use kvproxy.Base.Text.{Text}
use kvproxy.Extension.{Memory, Req, copy}
use kvproxy.Hash.{ConsistentHash, find, get_size}

-- req_group_t
abbrev pub Groups : Type 0
Groups = Map ℕ (List Req)

-- What `createReqGroup` reads of the proxy: the rings, sync_str, and the buffer that the requests
-- point into.
pub record Rings : Type 0 where
  pub hash : ConsistentHash
  pub hash_read : ConsistentHash
  pub hash_backup : ConsistentHash
  pub sync_str : Text
  pub mem : Memory

-- Its local list and the three groups.
pub record Grouping : Type 0 where
  pub each : List Req
  pub group : Groups
  pub backup : Groups
  pub sync : Groups

-- strncmp(key, str, n) == 0, for the n bytes of `str`: it stops at a zero byte in both.
unfoldable pub strncmp_eq : Memory → ℕ → Text → Bool
strncmp_eq mem p [] = true
strncmp_eq mem p (c ∷ str) = mem p == c && (c == 0 || strncmp_eq mem (add32 p 1) str)

-- (*group)[alias].push_back(req)
abbrev pub push : ℕ → Req → Groups → Groups
push a r group = insert a (at a [] group ++ r ∷ []) group

unfoldable pub key_of : Rings → Req → Text
key_of c r = copy c.mem r.key r.key_len

-- The alias index that `find` answers for the request, in the ring for its kind.
unfoldable pub main_host : Rings → Req → ℕ
main_host c r =
    if not r.update && ltb 0 (get_size c.hash_read)
    then (find (key_of c r) c.hash_read).1
    else (find (key_of c r) c.hash).1

unfoldable pub backup_host : Rings → Req → ℕ
backup_host c r = (find (key_of c r) c.hash_backup).1

-- The second part of the loop's body, for the backup hosts.
unfoldable pub place_backup : Rings → Req → Grouping → Grouping
unfolding backup_host
place_backup c r g =
    if r.update && ltb 0 (get_size c.hash_backup)
    then (if backup_host c r == 0
        then g
        else if strncmp_eq c.mem r.key c.sync_str
        then record g { sync = push (backup_host c r) r g.sync }
        else record g { backup = push (backup_host c r) r g.backup })
    else g

-- The loop's body. A `continue` leaves out what follows.
unfoldable pub place : Rings → Req → Grouping → Grouping
place c r g =
    if r.each
    then place_backup c r (record g { each = g.each ++ r ∷ [] })
    else if r.key_len == 0
    then g
    else if main_host c r == 0
    then g
    else place_backup c r (record g { group = push (main_host c r) r g.group })

unfoldable pub place_all : Rings → List Req → Grouping → Grouping
unfolding place
place_all c [] g = g
place_all c (r ∷ reqs) g = place_all c reqs (place c r g)

-- One request for every host of a group: the loop over the group pushes it to each entry.
unfoldable pub push_each : Req → Groups → Groups
push_each r [] = []
push_each r ((a, list) ∷ group) = (a, list ++ r ∷ []) ∷ push_each r group

unfoldable pub push_all : List Req → Groups → Groups
unfolding push_each
push_all [] group = group
push_all (r ∷ each) group = push_all each (push_each r group)

-- createReqGroup, with groups that are empty before. The sync group gets no request for all hosts.
unfoldable pub create_req_group : Rings → List Req → Grouping
unfolding place_all push_all
create_req_group c reqs =
    let g = place_all c reqs (record { each = []; group = []; backup = []; sync = [] }) in
    record g { group = push_all g.each g.group; backup = push_all g.each g.backup }
