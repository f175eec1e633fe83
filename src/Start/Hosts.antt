-- ===== src/Start/Hosts.antt =====
-- The hosts that `main` of src/kvproxy.cpp sets up: three calls of setHosts, then initVar.
pub mod Members
pub mod Kinds
pub mod Loop
pub mod Prepared
pub mod Guarded
use kvproxy.Base.{ℕ, Option, none, some, [], ◌∷◌, if◌then◌else◌}
use kvproxy.Base.Map.{Map}
use kvproxy.Base.Text.{Text, codes}
use kvproxy.System.{System}
use kvproxy.Config.{Conf, get_conf_str, get_section_str, is_empty}
use kvproxy.ConnPool.{ConnList}
use kvproxy.Proxy.State.{Hosts, init_var}
use kvproxy.Proxy.Setup.{Kind, default, backup, read, other, Setup, set_hosts}

-- The entries of the section that the extension's key names.
unfoldable pub group_of : Text → Text → Conf → Map Text Text × Conf
unfolding get_conf_str get_section_str
group_of ext_name type conf =
    let (group_name, c1) = get_conf_str ext_name type conf in
    if is_empty group_name then ([], c1) else get_section_str group_name c1

module _ (sys : System) (junk thread_count : ℕ) (ext_name : Text) where
  -- The proxy's hosts, the pool, the world and the configuration; `none` where setHosts ends the
  -- program.
  abbrev pub Started : Type 0
  Started = Hosts × ConnList × sys.World × Conf

  -- setHosts(type, ext_name, thread_count)
  unfoldable pub call_set_hosts : Kind → Text → Started → Option Started
  unfolding group_of set_hosts
  call_set_hosts kind type (p, pool, w, conf) =
      let (host_group, c1) = group_of ext_name type conf in
      elim (set_hosts sys junk thread_count kind host_group p pool w) [
        | none ↦ none
        | some s ↦ some (s.hosts, s.pool, s.world, c1)
      ]

  unfoldable pub start_hosts : Started → Option Started
  unfolding call_set_hosts init_var
  start_hosts s = elim (call_set_hosts default (codes "hosts") s) [
    | none ↦ none
    | some s1 ↦ elim (call_set_hosts backup (codes "hosts_backup") s1) [
      | none ↦ none
      | some s2 ↦ elim (call_set_hosts read (codes "hosts_read") s2) [
        | none ↦ none
        | some (p, pool, w, conf) ↦ some (init_var p, pool, w, conf)
      ]
    ]
  ]
