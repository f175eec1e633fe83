-- ===== src/Proxy/Group/Each.antt =====
-- What each host gets from `createReqGroup` in src/kvproxy.cpp in the end: its own requests, and
-- behind them those for all hosts.
use mathlib.Core.List.{append-nil, append_assoc}
use kvproxy.Base.{
  ℕ, ◌≡◌, ◌≢◌, refl, sym, ◌∙◌, ap, subst, ◌⊎◌, inl, inr, ◌&&◌, not, Option, none, some, List, [],
  ◌∷◌, ◌++◌, arith, ◌==◌, Bool-cases, Option-cases,
}
use kvproxy.Base.Order.{nat_ord}
use kvproxy.Base.Map.{lookup, at, lookup-insert}
use kvproxy.Extension.{Req}
use kvproxy.Proxy.Group.{
  Groups, Rings, Grouping, push, main_host, backup_host, place_backup, place, place_all, push_each,
  push_all, create_req_group,
}
use kvproxy.Proxy.Group.Routes.{keep, to_main, to_copy, is_sync, place_all-Placed}

-- No host of a group has an empty list.
abbrev IsFull : Groups → Type 0
IsFull group = (a : ℕ) → lookup a group ≢ some []

IsFull-push : (a : ℕ) (r : Req) (group : Groups) → IsFull group → IsFull (push a r group)
IsFull-push a r group full j e = elim (Bool-cases (a == j)) [
  | inl s ↦
      absurd
        (ground (arith, lookup-insert a j (at a [] group ++ r ∷ []) group, not_nil (at a [] group)))
  | inr n ↦ full j (rw (lookup-insert a j (at a [] group ++ r ∷ []) group, n) at e)
]
  where
    not_nil : (l : List Req) → l ++ r ∷ [] ≢ []
    not_nil [] q = cc
    not_nil (x ∷ l) q = cc

place-group :
    (c : Rings) (r : Req) (g : Grouping)
    → ((place c r g).group ≡ g.group) ⊎ ((place c r g).group ≡ push (main_host c r) r g.group)
unfolding place place_backup
place-group c r g = ground arith

place-backup :
    (c : Rings) (r : Req) (g : Grouping)
    → ((place c r g).backup ≡ g.backup) ⊎ ((place c r g).backup ≡ push (backup_host c r) r g.backup)
unfolding place place_backup
place-backup c r g = ground arith

IsFull-step :
    (a : ℕ) (r : Req) (group next : Groups)
    → (next ≡ group) ⊎ (next ≡ push a r group)
    → IsFull group
    → IsFull next
IsFull-step a r group next (inl e) full = subst IsFull (sym e) full
IsFull-step a r group next (inr e) full = subst IsFull (sym e) (IsFull-push a r group full)

place_all-IsFull :
    (c : Rings) (reqs : List Req) (g : Grouping)
    → IsFull g.group
    → IsFull g.backup
    → IsFull (place_all c reqs g).group × IsFull (place_all c reqs g).backup
unfolding place_all
place_all-IsFull c [] g m b = (m, b)
place_all-IsFull c (r ∷ reqs) g m b =
    place_all-IsFull c reqs (place c r g)
      (IsFull-step (main_host c r) r g.group _ (place-group c r g) m)
      (IsFull-step (backup_host c r) r g.backup _ (place-backup c r g) b)

abbrev behind : List Req → Option (List Req) → Option (List Req)
behind each none = none
behind each (some list) = some (list ++ each)

behind-nil : (o : Option (List Req)) → o ≡ behind [] o
behind-nil none = refl
behind-nil (some list) = ap {B = Option (List Req)} some (sym (append-nil list))

behind-behind : (a b : List Req) (o : Option (List Req)) → behind b (behind a o) ≡ behind (a ++ b) o
behind-behind a b none = refl
behind-behind a b (some list) = ap {B = Option (List Req)} some (append_assoc list a b)

lookup-push_each :
    (r : Req) (a : ℕ) (group : Groups)
    → lookup a (push_each r group) ≡ behind (r ∷ []) (lookup a group)
unfolding push_each
lookup-push_each r a [] = refl
lookup-push_each r a ((b, list) ∷ group) = ground (arith, lookup-push_each r a group)

lookup-push_all :
    (each : List Req) (a : ℕ) (group : Groups)
    → lookup a (push_all each group) ≡ behind each (lookup a group)
unfolding push_all
lookup-push_all [] a group = behind-nil (lookup a group)
lookup-push_all (r ∷ each) a group =
    lookup-push_all each a (push_each r group)
    ∙ ap (behind each) (lookup-push_each r a group)
    ∙ behind-behind (r ∷ []) each (lookup a group)

-- A list, and behind it the requests for all hosts, unless it is empty.
abbrev pub with_each : List Req → List Req → List Req
with_each [] each = []
with_each (r ∷ list) each = (r ∷ list) ++ each

at-push_all :
    (each : List Req) (a : ℕ) (group : Groups)
    → IsFull group
    → at a [] (push_all each group) ≡ with_each (at a [] group) each
at-push_all each a group full = elim (Option-cases (lookup a group)) [
  | inl e ↦ ground (arith, lookup-push_all each a group)
  | inr ([], e) ↦ absurd (full a e)
  | inr (r ∷ list, e) ↦ ground (arith, lookup-push_all each a group)
]

-- Each host gets, in the client's order, exactly the requests whose ring answers with it, and behind
-- them the requests for all hosts if it gets any; so does each backup host with the updates that are
-- copied to it later. A backup host that is written at once gets the updates alone.
pub create_req_group_lem :
    (c : Rings) (a : ℕ) (reqs : List Req)
    → (at a [] (create_req_group c reqs).group
        ≡ with_each (keep (to_main c a) reqs) (keep (λ r. r.each) reqs))
      × (at a [] (create_req_group c reqs).backup
          ≡ with_each
              (keep (λ r. to_copy c a r && not (is_sync c r)) reqs)
              (keep (λ r. r.each) reqs))
      × (at a [] (create_req_group c reqs).sync ≡ keep (λ r. to_copy c a r && is_sync c r) reqs)
unfolding create_req_group
create_req_group_lem c a reqs =
    let start : Grouping = record { each = []; group = []; backup = []; sync = [] } in
    let g = place_all c reqs start in
    let placed = place_all-Placed c a reqs start in
    let (m, b) = place_all-IsFull c reqs start (λ j e. cc) (λ j e. cc) in
    (
      at-push_all g.each a g.group m ∙ cc (placed.each, placed.group),
      at-push_all g.each a g.backup b ∙ cc (placed.each, placed.backup),
      placed.sync,
    )
