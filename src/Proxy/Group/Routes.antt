-- ===== src/Proxy/Group/Routes.antt =====
-- Which requests each host of a group gets from the first loop of `createReqGroup` in
-- src/kvproxy.cpp.
use mathlib.Core.List.{append-nil, append_assoc}
use kvproxy.Base.{
  ℕ, ◌≡◌, sym, ◌∙◌, ap, inl, inr, Bool, ◌&&◌, ◌||◌, not, List, [], ◌∷◌, ◌++◌, arith, ltb, ◌==◌,
  if◌then◌else◌, Bool-cases, ==_iff,
}
use kvproxy.Base.Order.{nat_ord}
use kvproxy.Base.Map.{at, at-insert}
use kvproxy.Extension.{Req}
use kvproxy.Hash.{get_size}
use kvproxy.Proxy.Group.{
  Groups, Rings, Grouping, strncmp_eq, push, main_host, backup_host, place_backup, place, place_all,
}

abbrev pub keep : (Req → Bool) → List Req → List Req
keep f [] = []
keep f (r ∷ reqs) = if f r then r ∷ keep f reqs else keep f reqs

-- A request that is not for every host, has a key, and has a host to go to.
abbrev pub is_routed : Rings → Req → Bool
is_routed c r = not r.each && (not (r.key_len == 0) && not (main_host c r == 0))

-- The request goes to the host with this alias.
abbrev pub to_main : Rings → ℕ → Req → Bool
to_main c a r = is_routed c r && main_host c r == a

-- An update that is copied to the backup host with this alias.
abbrev pub to_copy : Rings → ℕ → Req → Bool
to_copy c a r =
    (r.each || is_routed c r)
    && ((r.update && ltb 0 (get_size c.hash_backup))
        && (not (backup_host c r == 0) && backup_host c r == a))

abbrev pub is_sync : Rings → Req → Bool
is_sync c r = strncmp_eq c.mem r.key c.sync_str

-- What the grouping holds for one host.
pub record Placed (c : Rings) (a : ℕ) (reqs : List Req) (g g' : Grouping) : Type 0 where
  pub each : g'.each ≡ g.each ++ keep (λ r. r.each) reqs
  pub group : at a [] g'.group ≡ at a [] g.group ++ keep (to_main c a) reqs
  pub backup :
      at a [] g'.backup ≡ at a [] g.backup ++ keep (λ r. to_copy c a r && not (is_sync c r)) reqs
  pub sync : at a [] g'.sync ≡ at a [] g.sync ++ keep (λ r. to_copy c a r && is_sync c r) reqs

at-push :
    (a j : ℕ) (r : Req) (group : Groups)
    → at j [] (push a r group) ≡ at j [] group ++ (if a == j then r ∷ [] else [])
at-push a j r group = elim (Bool-cases (a == j)) [
  | inl e ↦
      let same : a ≡ j = (==_iff a j).0 e in
      at-insert a j (at a [] group ++ r ∷ []) [] group ∙ rw (e, same)
  | inr n ↦ at-insert a j (at a [] group ++ r ∷ []) [] group ∙ rw n (sym (append-nil _))
]

abbrev only_if : Bool → Req → List Req
only_if b r = if b then r ∷ [] else []

-- The test of the part for the backup hosts.
abbrev copied : Rings → ℕ → Req → Bool
copied c a r =
    (r.update && ltb 0 (get_size c.hash_backup))
    && (not (backup_host c r == 0) && backup_host c r == a)

module _ (c : Rings) (a : ℕ) (r : Req) (g : Grouping) where
  place_backup-backup :
      at a [] (place_backup c r g).backup
      ≡ at a [] g.backup ++ only_if (copied c a r && not (is_sync c r)) r
  unfolding place_backup
  place_backup-backup =
      ground (arith, at-push (backup_host c r) a r g.backup, append-nil (at a [] g.backup))

  place_backup-sync :
      at a [] (place_backup c r g).sync ≡ at a [] g.sync ++ only_if (copied c a r && is_sync c r) r
  unfolding place_backup
  place_backup-sync =
      ground (arith, at-push (backup_host c r) a r g.sync, append-nil (at a [] g.sync))

  pub place_backup-rest :
      ((place_backup c r g).each ≡ g.each) × ((place_backup c r g).group ≡ g.group)
  unfolding place_backup
  place_backup-rest = ground arith

place-Placed : (c : Rings) (a : ℕ) (r : Req) (g : Grouping) → Placed c a (r ∷ []) g (place c r g)
unfolding place
place-Placed c a r g =
    let g1 : Grouping = record g { each = g.each ++ r ∷ [] } in
    let g2 : Grouping = record g { group = push (main_host c r) r g.group } in
    let rest1 = place_backup-rest c a r g1 in
    let rest2 = place_backup-rest c a r g2 in
    record {
      each = ground (arith, rest1, rest2, append-nil g.each);
      group =
          ground (
            arith,
            rest1,
            rest2,
            append-nil (at a [] g.group),
            at-push (main_host c r) a r g.group,
          );
      backup = ground (
        arith,
        place_backup-backup c a r g1,
        place_backup-backup c a r g2,
        append-nil (at a [] g.backup),
      );
      sync = ground (
        arith,
        place_backup-sync c a r g1,
        place_backup-sync c a r g2,
        append-nil (at a [] g.sync),
      );
    }

keep-cons :
    (f : Req → Bool) (r : Req) (reqs : List Req)
    → keep f (r ∷ reqs) ≡ keep f (r ∷ []) ++ keep f reqs
keep-cons f r reqs = ground arith

join :
    (f : Req → Bool) (r : Req) (reqs a b d : List Req)
    → d ≡ b ++ keep f reqs
    → b ≡ a ++ keep f (r ∷ [])
    → d ≡ a ++ keep f (r ∷ reqs)
join f r reqs a b d e h =
    e
    ∙ ap (λ l. l ++ keep f reqs) h
    ∙ append_assoc a (keep f (r ∷ [])) (keep f reqs)
    ∙ ap (◌++◌ a) (sym (keep-cons f r reqs))

-- After the first loop the list of each host is what it was and, behind it and in the client's order,
-- the requests whose ring answers with that host; the same holds of the two lists of each backup host,
-- and of the list of the requests for all hosts.
pub place_all-Placed :
    (c : Rings) (a : ℕ) (reqs : List Req) (g : Grouping) → Placed c a reqs g (place_all c reqs g)
unfolding place_all
place_all-Placed c a [] g = record {
  each = sym (append-nil _);
  group = sym (append-nil _);
  backup = sym (append-nil _);
  sync = sym (append-nil _);
}
place_all-Placed c a (r ∷ reqs) g =
    let first = place-Placed c a r g in
    let rest = place_all-Placed c a reqs (place c r g) in
    record {
      each = join _ r reqs g.each (place c r g).each _ rest.each first.each;
      group =
          join _ r reqs (at a [] g.group) (at a [] (place c r g).group) _ rest.group first.group;
      backup =
          join _ r reqs (at a [] g.backup) (at a [] (place c r g).backup) _ rest.backup
            first.backup;
      sync = join _ r reqs (at a [] g.sync) (at a [] (place c r g).sync) _ rest.sync first.sync;
    }
