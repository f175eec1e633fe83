-- ===== src/Proxy/State.antt =====
-- The variables of `KvProxy` that tell which hosts serve and how they fare, and the operations of
-- src/kvproxy.cpp that set them up and count.
pub mod Aliases
pub mod Counted
use kvproxy.Base.{
  ℕ, ◌+◌, Bool, true, false, Option, none, some, [], ◌∷◌, ltb, ◌==◌, if◌then◌else◌, ◌&&◌,
}
use kvproxy.Base.Order.{nat_ord, text_ord}
use kvproxy.Base.Word.{add32}
use kvproxy.Base.Map.{Map, lookup, insert, at, same_key}
use kvproxy.Base.Text.{Text}
use kvproxy.Hash.{ConsistentHash}

-- A `std::set` of alias indices, as the list of them in order.
abbrev pub IndexSet : Type 0
IndexSet = Map ℕ Unit

abbrev pub has {ℓ} : {V : Type ℓ} → ℕ → Map ℕ V → Bool
has k m = elim (lookup k m) [ none ↦ false | some _ ↦ true ]

pub record Hosts : Type 0 where
  -- The host and port of each alias, and its index and weight.
  pub host_alias : Map ℕ (Text × ℕ)
  pub host_infos : Map ℕ (ℕ × ℕ)
  pub host_offline : Map ℕ Bool
  pub hosts_default : IndexSet
  pub hosts_read : IndexSet
  pub hosts_backup : IndexSet
  pub hash : ConsistentHash
  pub hash_backup : ConsistentHash
  pub hash_read : ConsistentHash
  pub st_fail : Map ℕ ℕ
  pub st_cont_fail : Map ℕ ℕ
  -- The static variable of `setHostAlias`.
  pub alias_count : ℕ

-- ST_LIMIT
abbrev pub st_limit : ℕ
st_limit = 2100000000

unfoldable pub init_var_loop : Map ℕ (Text × ℕ) → Hosts → Hosts
init_var_loop [] p = p
init_var_loop ((a, _) ∷ it) p = init_var_loop it (record p {
  host_offline = insert a false p.host_offline;
  st_cont_fail = insert a 0 p.st_cont_fail;
  st_fail = insert a 0 p.st_fail;
})

unfoldable pub init_var : Hosts → Hosts
unfolding init_var_loop
init_var p = init_var_loop p.host_alias p

-- The loop of `setHostAlias`: the first alias with this host and port.
unfoldable pub find_alias : Text → ℕ → Map ℕ (Text × ℕ) → Option ℕ
find_alias host port [] = none
find_alias host port ((a, (h, p)) ∷ it) =
    let rest = find_alias host port it in if same_key h host && p == port then some a else rest

-- setHostAlias: the alias of the host, an old one or a new one. `index++` is on `uint32_t`; the
-- hosts of a configuration are fewer.
unfoldable pub set_host_alias : Text → ℕ → Hosts → ℕ × Hosts
unfolding find_alias
set_host_alias host port p = elim (find_alias host port p.host_alias) [
  | some a ↦ (a, p)
  | none ↦
      let index = add32 p.alias_count 1 in
      (index, record p { alias_count = index; host_alias = insert index (host, port) p.host_alias })
]

-- countFail. `m[k]` of a missing key makes an entry with 0.
unfoldable pub count_fail : Bool → ℕ → Hosts → Hosts
count_fail is_fail a p =
    let fail = at a 0 p.st_fail in
    let cont = at a 0 p.st_cont_fail in
    if is_fail
    then (if ltb fail st_limit
        then record p {
          st_fail = insert a (fail + 1) p.st_fail;
          st_cont_fail = insert a (cont + 1) p.st_cont_fail;
        }
        else record p { st_fail = insert a fail p.st_fail })
    else record p { st_cont_fail = insert a 0 p.st_cont_fail }
