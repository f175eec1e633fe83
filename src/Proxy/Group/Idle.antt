-- ===== src/Proxy/Group/Idle.antt =====
-- The groups that `createReqGroup` of src/kvproxy.cpp makes where no ring has a host.
use kvproxy.Base.{
  ◌≡◌, refl, sym, ◌∙◌, subst, inl, inr, Bool, true, false, List, [], ◌∷◌, ◌++◌, ltb, ◌==◌, arith,
  if◌then◌else◌, Bool-cases,
}
use kvproxy.Base.Text.{Text}
use kvproxy.Hash.{ConsistentHash, find, find_key, get_size}
use kvproxy.Extension.{Req}
use kvproxy.Proxy.State.{Hosts}
use kvproxy.Proxy.Group.{
  Rings, Grouping, key_of, main_host, place_backup, place, place_all, push_all, create_req_group,
}

-- No ring has a host.
pub record NoRing (h : Hosts) : Type 0 where
  pub hash : h.hash.hash ≡ []
  pub hash_read : h.hash_read.hash ≡ []
  pub hash_backup : h.hash_backup.hash ≡ []

find-empty : (key : Text) (h : ConsistentHash) → h.hash ≡ [] → (find key h).1 ≡ 0
unfolding find find_key
find-empty key h e = rw (find, e) refl

get_size-empty : (h : ConsistentHash) → h.hash ≡ [] → ltb 0 (get_size h) ≡ false
unfolding get_size
get_size-empty h e = rw (get_size, e) refl

if_yes : (x : Bool) (g g' : Grouping) → x ≡ true → (if x then g else g') ≡ g
if_yes x g g' e = rw e refl

if_no : (x : Bool) (g g' : Grouping) → x ≡ false → (if x then g else g') ≡ g'
if_no x g g' e = rw e refl

-- There are no requests for any host.
pub record IsIdle (g : Grouping) : Type 0 where
  pub group : g.group ≡ []
  pub backup : g.backup ≡ []
  pub sync : g.sync ≡ []

module _ (c : Rings) (a : c.hash.hash ≡ []) (r : c.hash_read.hash ≡ [])
    (b : c.hash_backup.hash ≡ []) where
  main_host-empty : (q : Req) → main_host c q ≡ 0
  unfolding main_host
  main_host-empty q =
      let none_read = get_size-empty c.hash_read r in
      ground (arith, find-empty (key_of c q) c.hash a)

  place_backup-empty : (q : Req) (g : Grouping) → place_backup c q g ≡ g
  unfolding place_backup
  place_backup-empty q g = let none_there = get_size-empty c.hash_backup b in ground arith

  place-each :
      (q : Req) (g : Grouping) → q.each ≡ true → place c q g ≡ record g { each = g.each ++ q ∷ [] }
  unfolding place
  place-each q g e =
      if_yes q.each _ _ e ∙ (place_backup-empty q (record g { each = g.each ++ q ∷ [] }))

  place-one : (q : Req) (g : Grouping) → q.each ≡ false → place c q g ≡ g
  unfolding place
  place-one q g e = if_no q.each _ _ e ∙ (elim (Bool-cases (q.key_len == 0)) [
    | inl no_key ↦ if_yes (q.key_len == 0) _ _ no_key
    | inr key ↦
        if_no (q.key_len == 0) _ _ key
        ∙ if_yes (main_host c q == 0) _ _ (rw (main_host-empty q) refl)
  ])

  place-IsIdle : (q : Req) (g : Grouping) → IsIdle g → IsIdle (place c q g)
  place-IsIdle q g v = elim (Bool-cases q.each) [
    | inl each ↦
        subst IsIdle (sym (place-each q g each))
          (record { group = v.group; backup = v.backup; sync = v.sync })
    | inr one ↦ subst IsIdle (sym (place-one q g one)) v
  ]

  place_all-IsIdle : (list : List Req) (g : Grouping) → IsIdle g → IsIdle (place_all c list g)
  unfolding place_all
  place_all-IsIdle [] g v = v
  place_all-IsIdle (q ∷ list) g v = place_all-IsIdle list (place c q g) (place-IsIdle q g v)

  push_all-empty : (each : List Req) → push_all each [] ≡ []
  unfolding push_all
  push_all-empty [] = refl
  push_all-empty (q ∷ each) = push_all-empty each

  pub create_req_group-IsIdle : (list : List Req) → IsIdle (create_req_group c list)
  unfolding create_req_group
  create_req_group-IsIdle list =
      let none_yet : Grouping = record { each = []; group = []; backup = []; sync = [] } in
      let each = (place_all c list none_yet).each in
      let v =
        place_all-IsIdle list none_yet (record { group = refl; backup = refl; sync = refl }) in
      record {
        group = rw v.group (push_all-empty each);
        backup = rw v.backup (push_all-empty each);
        sync = v.sync;
      }
