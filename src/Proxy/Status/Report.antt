-- ===== src/Proxy/Status/Report.antt =====
-- What `getStatus` of src/kvproxy.cpp reports.
use mathlib.Core.List.{append_assoc, append-nil}
use kvproxy.Base.{
  ℕ, ◌+◌, ◌%◌, ◌^◌, ◌<◌, ◌≡◌, refl, sym, ap, ◌∙◌, inl, inr, Bool, true, false, [], ◌∷◌, ◌++◌, arith,
  length, if◌then◌else◌, Bool-cases,
}
use kvproxy.Base.Order.{nat_ord}
use kvproxy.Base.Map.{Map, at-insert, same_key, same_key_iff}
use kvproxy.Base.Word.{add32, slt32}
use kvproxy.Base.Text.{Text, codes}
use kvproxy.Util.{int2str}
use kvproxy.System.{System}
use kvproxy.ConnPool.{get_connection_size}
use kvproxy.Proxy.Status.{
  Aliases, alias_at, touch_alias, host_line, fail_loop, offline_loop, thousandth, Counters,
  requests, content, get_status,
}

-- The sum of the counters, and how many hosts are marked.
abbrev pub sum_of : Map ℕ ℕ → ℕ
sum_of [] = 0
sum_of ((a, n) ∷ it) = n + sum_of it

abbrev pub marked : Map ℕ Bool → ℕ
marked [] = 0
marked ((a, offline) ∷ it) = (if offline then 1 else 0) + marked it

-- One line for each host with its counter, and one for each host that is marked.
abbrev pub fail_lines : Aliases → Map ℕ ℕ → Text
fail_lines m [] = []
fail_lines m ((a, n) ∷ it) = host_line (alias_at a m) (int2str n) ++ fail_lines m it

abbrev pub offline_lines : Aliases → Map ℕ Bool → Text
offline_lines m [] = []
offline_lines m ((a, offline) ∷ it) =
    if offline
    then host_line (alias_at a m) (codes "offline") ++ offline_lines m it
    else offline_lines m it

-- The hosts are the same.
abbrev pub SameAliases : Aliases → Aliases → Type 0
SameAliases m n = (j : ℕ) → alias_at j m ≡ alias_at j n

touch_alias-SameAliases : (a : ℕ) (m : Aliases) → SameAliases (touch_alias a m) m
touch_alias-SameAliases a m j = at-insert a j (alias_at a m) ([], 0) m ∙ same_alias
  where
    same_alias : (if same_key a j then alias_at a m else alias_at j m) ≡ alias_at j m
    same_alias = elim (Bool-cases (same_key a j)) [
      | inl e ↦ rw e (ap (λ i. alias_at i m) ((same_key_iff a j).0 e))
      | inr e ↦ rw e refl
    ]

fail_lines-SameAliases :
    (m n : Aliases) (it : Map ℕ ℕ) → SameAliases m n → fail_lines m it ≡ fail_lines n it
fail_lines-SameAliases m n [] s = refl
fail_lines-SameAliases m n ((a, k) ∷ it) s = rw (s a, fail_lines-SameAliases m n it s) refl

offline_lines-SameAliases :
    (m n : Aliases) (it : Map ℕ Bool) → SameAliases m n → offline_lines m it ≡ offline_lines n it
offline_lines-SameAliases m n [] s = refl
offline_lines-SameAliases m n ((a, true) ∷ it) s = rw (s a, offline_lines-SameAliases m n it s) refl
offline_lines-SameAliases m n ((a, false) ∷ it) s = offline_lines-SameAliases m n it s

record FailLoop (it : Map ℕ ℕ) (m : Aliases) (str : Text) (total : ℕ) (r : Aliases × Text × ℕ)
    : Type 0 where
  aliases : SameAliases r.0 m
  lines : r.1 ≡ str ++ fail_lines m it
  count : r.2 ≡ (total + sum_of it) % 2 ^ 32

fail_loop-FailLoop :
    (it : Map ℕ ℕ) (m : Aliases) (str : Text) (total : ℕ)
    → total < 2 ^ 32
    → FailLoop it m str total (fail_loop it m str total)
unfolding fail_loop
fail_loop-FailLoop [] m str total h = record {
  aliases = λ j. refl;
  lines = sym (append-nil str);
  count = omega arith;
}
fail_loop-FailLoop ((a, n) ∷ it) m str total h =
    let same = touch_alias-SameAliases a m in
    let rest =
      fail_loop-FailLoop it (touch_alias a m) (str ++ host_line (alias_at a m) (int2str n))
        (add32 total n) (omega arith) in
    record {
      aliases = λ j. rest.aliases j ∙ same j;
      lines =
          rest.lines
          ∙ rw (fail_lines-SameAliases (touch_alias a m) m it same) (append_assoc str _ _);
      count = rest.count ∙ omega arith;
    }

record OfflineLoop (it : Map ℕ Bool) (m : Aliases) (str : Text) (total : ℕ) (r : Aliases × Text × ℕ)
    : Type 0 where
  aliases : SameAliases r.0 m
  lines : r.1 ≡ str ++ offline_lines m it
  count : r.2 ≡ (total + marked it) % 2 ^ 32

offline_loop-OfflineLoop :
    (it : Map ℕ Bool) (m : Aliases) (str : Text) (total : ℕ)
    → total < 2 ^ 32
    → OfflineLoop it m str total (offline_loop it m str total)
unfolding offline_loop
offline_loop-OfflineLoop [] m str total h = record {
  aliases = λ j. refl;
  lines = sym (append-nil str);
  count = omega arith;
}
offline_loop-OfflineLoop ((a, true) ∷ it) m str total h =
    let same = touch_alias-SameAliases a m in
    let line = host_line (alias_at a m) (codes "offline") in
    let rest =
      offline_loop-OfflineLoop it (touch_alias a m) (str ++ line) (add32 total 1) (omega arith) in
    record {
      aliases = λ j. rest.aliases j ∙ same j;
      lines =
          rest.lines
          ∙ rw (offline_lines-SameAliases (touch_alias a m) m it same)
              (append_assoc str line (offline_lines m it));
      count = rest.count ∙ omega arith;
    }
offline_loop-OfflineLoop ((a, false) ∷ it) m str total h =
    let rest = offline_loop-OfflineLoop it m str total h in
    record { aliases = rest.aliases; lines = rest.lines; count = omega (arith, rest.count) }

from_zero : (n : ℕ) → (0 + n) % 2 ^ 32 ≡ n % 2 ^ 32
from_zero n = omega arith

-- The report's numbers are the sums over all hosts, on 32 bits: of the failed requests, of those in a row, and of the hosts that are marked
-- offline. It has one line for each host with a counter, and one for each host that is marked, with the
-- address that the host has at the start; the number of connections is at least 0. No host gets another address.
pub get_status-report :
    (sys : System) (c : Counters sys)
    → ((get_status sys c).0
        ≡ content
            (requests c.st_req)
            (fail_lines c.hosts.host_alias c.hosts.st_fail)
            (sum_of c.hosts.st_fail % 2 ^ 32)
            (fail_lines c.hosts.host_alias c.hosts.st_cont_fail)
            (sum_of c.hosts.st_cont_fail % 2 ^ 32)
            (offline_lines c.hosts.host_alias c.hosts.host_offline)
            (marked c.hosts.host_offline % 2 ^ 32)
            (get_status sys c).1.st_conn
            (get_connection_size sys c.conn_pool c.world).0
            (thousandth c.recv_timeout)
            (length c.async_req % 2 ^ 32))
      × (slt32 (get_status sys c).1.st_conn 0 ≡ false)
      × SameAliases (get_status sys c).1.hosts.host_alias c.hosts.host_alias
unfolding get_status
get_status-report sys c =
    let f = fail_loop-FailLoop c.hosts.st_fail c.hosts.host_alias [] 0 (omega arith) in
    let m1 = (fail_loop c.hosts.st_fail c.hosts.host_alias [] 0).0 in
    let k = fail_loop-FailLoop c.hosts.st_cont_fail m1 [] 0 (omega arith) in
    let m2 = (fail_loop c.hosts.st_cont_fail m1 [] 0).0 in
    let o = offline_loop-OfflineLoop c.hosts.host_offline m2 [] 0 (omega arith) in
    (
      rw
          (
            f.lines,
            f.count ∙ from_zero (sum_of c.hosts.st_fail),
            k.lines,
            k.count ∙ from_zero (sum_of c.hosts.st_cont_fail),
            o.lines,
            o.count ∙ from_zero (marked c.hosts.host_offline),
            fail_lines-SameAliases m1 c.hosts.host_alias c.hosts.st_cont_fail f.aliases,
            offline_lines-SameAliases m2 c.hosts.host_alias c.hosts.host_offline
                (λ j. k.aliases j ∙ f.aliases j),
          )
          refl,
      ground arith,
      λ j. o.aliases j ∙ (k.aliases j ∙ f.aliases j),
    )
