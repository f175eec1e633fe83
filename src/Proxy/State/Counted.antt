-- ===== src/Proxy/State/Counted.antt =====
-- The counters of failures in src/kvproxy.cpp stay within their limit.
use kvproxy.Base.{ℕ, ◌+◌, ◌≤◌, Bool, [], ◌∷◌, arith, ==_iff}
use kvproxy.Base.Order.{nat_ord}
use kvproxy.Base.Map.{Map, at, at-insert}
use kvproxy.Base.Text.{Text}
use kvproxy.Proxy.State.{Hosts, st_limit, init_var_loop, init_var, count_fail}

-- No host has more failures in a row than failures, nor more failures than the limit.
abbrev pub IsCounted : Hosts → Type 0
IsCounted p = (a : ℕ) → (at a 0 p.st_cont_fail ≤ at a 0 p.st_fail) × (at a 0 p.st_fail ≤ st_limit)

init_var_loop-IsCounted :
    (it : Map ℕ (Text × ℕ)) (p : Hosts) → IsCounted p → IsCounted (init_var_loop it p)
unfolding init_var_loop
init_var_loop-IsCounted [] p v = v
init_var_loop-IsCounted ((b, w) ∷ it) p v =
    init_var_loop-IsCounted it _
      (λ a. ground (arith, at-insert b a 0 0 p.st_cont_fail, at-insert b a 0 0 p.st_fail, v a))

-- Where no host has more failures in a row than failures, nor more than ST_LIMIT, counting a
-- failure or a success of any host keeps it so for all hosts, and so does setting them to zero at
-- the start.
pub count_fail-IsCounted :
    (is_fail : Bool) (b : ℕ) (p : Hosts)
    → IsCounted p
    → IsCounted (count_fail is_fail b p) × IsCounted (init_var p)
unfolding count_fail init_var
count_fail-IsCounted is_fail b p v = (
  λ a. ground (
    arith,
    at-insert b a (at b 0 p.st_fail + 1) 0 p.st_fail,
    at-insert b a (at b 0 p.st_cont_fail + 1) 0 p.st_cont_fail,
    at-insert b a (at b 0 p.st_fail) 0 p.st_fail,
    at-insert b a 0 0 p.st_cont_fail,
    ==_iff b a,
    v a,
    v b,
  ),
  init_var_loop-IsCounted p.host_alias p v,
)
