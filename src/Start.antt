-- ===== src/Start.antt =====
-- `main`, `initLog` and the constructor of KvProxy in src/kvproxy.cpp: what the program reads at its
-- start, and the hosts that it starts with.
pub mod Hosts
mod Tests
use kvproxy.Base.{
  ℕ, ◌+◌, ◌*◌, ◌^◌, ◌%◌, Bool, true, false, Option, none, some, List, [], ◌∷◌, ◌++◌, ◌==◌,
  if◌then◌else◌,
}
use kvproxy.Base.Word.{slt32}
use kvproxy.Base.Text.{Text, codes}
use kvproxy.Config.{Conf, Loaded, get_conf_str, get_conf_int, get_conf_bool, load_conf}
use kvproxy.Util.{get_cwd}
use kvproxy.Log.{Logger, get_level, set_level}
use kvproxy.Server.Threads.{exit_code}

abbrev pub is_empty : Text → Bool
is_empty [] = true
is_empty (_ ∷ _) = false

-- What getopt answers: -h, -d, -c with its argument, -v, or anything else.
pub data Flag : Type 0 where
  help_flag daemon_flag version_flag unknown_flag : Flag
  conf_flag : Text → Flag

-- The loop over the flags: conf_path and is_daemon; `none` is help or show_version, which end the
-- program.
unfoldable pub read_flags : List Flag → Text → Bool → Option (Text × Bool)
read_flags [] conf_path is_daemon = some (conf_path, is_daemon)
read_flags (help_flag ∷ flags) conf_path is_daemon = none
read_flags (daemon_flag ∷ flags) conf_path is_daemon = read_flags flags conf_path true
read_flags (version_flag ∷ flags) conf_path is_daemon = none
read_flags (unknown_flag ∷ flags) conf_path is_daemon = none
read_flags (conf_flag path ∷ flags) conf_path is_daemon = read_flags flags path is_daemon

abbrev pub own_section : Text
own_section = codes "kvproxy"

abbrev pub or_else : Text → Text → Text
or_else t d = if is_empty t then d else t

-- initLog: the path of the log, and the logger with its level.
unfoldable pub init_log : Text → Conf → Logger → Text × Logger × Conf
unfolding get_conf_str get_level
init_log cwd conf logger =
    let (log_path, conf1) = get_conf_str own_section (codes "log_path") conf in
    let (log_level, conf2) = get_conf_str own_section (codes "log_level") conf1 in
    (
      or_else log_path (cwd ++ codes "../log/kvproxy.log"),
      (if is_empty log_level then logger else set_level (get_level log_level) logger),
      conf2,
    )

-- The settings that the constructor reads. The two timeouts are `none` where they stay uninitialised.
pub record Settings : Type 0 where
  pub connect_timeout : Option ℕ
  pub send_timeout : Option ℕ
  pub recv_timeout : ℕ
  pub max_packet : ℕ
  pub failover_threshold : ℕ
  pub failover_interval : ℕ
  pub async_size : ℕ
  -- The size of each of a thread's four buffers.
  pub buf_size : ℕ

abbrev pub times_1000 : ℕ → ℕ
times_1000 n = (n * 1000) % 2 ^ 32

abbrev pub some_timeout : ℕ → Option ℕ
some_timeout n = if n == 0 then none else some (times_1000 n)

-- A number that is not above 0 gives way to the default.
abbrev pub positive_or : ℕ → ℕ → ℕ
positive_or n d = if slt32 0 n then n else d

-- KvProxy::KvProxy. `junk` is what an uninitialised `int` holds.
unfoldable pub read_settings : ℕ → Conf → Settings × Conf
unfolding get_conf_int
read_settings junk conf =
    let (connect, c1) = get_conf_int junk own_section (codes "connect_timeout") conf in
    let (sending, c2) = get_conf_int junk own_section (codes "send_timeout") c1 in
    let (receive, c3) = get_conf_int junk own_section (codes "recv_timeout") c2 in
    let (packet, c4) = get_conf_int junk own_section (codes "max_packet") c3 in
    let (threshold, c5) = get_conf_int junk own_section (codes "failover_threshold") c4 in
    let (interval, c6) = get_conf_int junk own_section (codes "failover_interval") c5 in
    let (async, c7) = get_conf_int junk own_section (codes "async_size") c6 in
    (
      record {
        connect_timeout = some_timeout connect;
        send_timeout = some_timeout sending;
        recv_timeout = if receive == 0 then 100000 else times_1000 receive;
        max_packet = positive_or packet 1;
        failover_threshold = positive_or threshold 10;
        failover_interval = positive_or interval 10;
        async_size = positive_or async 50000;
        buf_size = (positive_or packet 1 * 1024 * 1024) % 2 ^ 32;
      },
      c7,
    )

-- What main decides before it makes the server.
pub record Startup : Type 0 where
  pub conf : Conf
  pub ext_name : Text
  pub cwd : Text
  pub is_daemon : Bool
  pub log_path : Text
  pub logger : Logger
  pub cpu_affinity : Bool
  pub thread_count : ℕ

-- The number of threads on Linux, as a `uint32_t`.
abbrev pub threads_of : Bool → ℕ → ℕ → ℕ
threads_of cpu_affinity cpus count = if cpu_affinity then cpus else if count == 0 then 1 else count

-- main up to the server. `files` is what the file at a path holds, if it can be read.
unfoldable pub start : (Text → Option Text) → List Flag → Text → ℕ → ℕ → Logger → Option Startup
unfolding read_flags get_cwd load_conf init_log get_conf_bool get_conf_int
start files flags arg0 cpus junk logger = elim (read_flags flags [] false) [
  | none ↦ none
  | some (path, is_daemon) ↦ elim (get_cwd arg0) [
    | none ↦ none
    | some cwd ↦ elim (files (or_else path (cwd ++ codes "../etc/kvproxy.ini"))) [
      | none ↦ none
      | some text ↦ elim (load_conf text (record { conf = []; ext_name = []; cur_sec = [] })) [
        | none ↦ none
        | some l ↦
            let (log_path, logger', c1) = init_log cwd l.conf logger in
            let (affinity, c2) = get_conf_bool own_section (codes "cpu_affinity") c1 in
            let (count, c3) = get_conf_int junk own_section (codes "thread_count") c2 in
            some (record {
              conf = c3;
              ext_name = l.ext_name;
              cwd = cwd;
              is_daemon = is_daemon;
              log_path = log_path;
              logger = logger';
              cpu_affinity = affinity;
              thread_count = threads_of affinity cpus count;
            })
      ]
    ]
  ]
]

-- The path and the file of the extension.
unfoldable pub extension_of : Text → Text → Conf → Text × Text × Conf
unfolding get_conf_str
extension_of cwd ext_name conf =
    let (ext_path, c1) = get_conf_str own_section (codes "ext_path") conf in
    let (filename, c2) = get_conf_str ext_name (codes "extension") c1 in
    (or_else ext_path (cwd ++ codes "../ext"), filename, c2)

-- The port, and the backlog that startRun is given.
unfoldable pub listen_of : ℕ → Conf → ℕ × ℕ × Conf
unfolding get_conf_int
listen_of junk conf =
    let (port, c1) = get_conf_int junk own_section (codes "port") conf in
    let (backlog, c2) = get_conf_int junk own_section (codes "backlog") c1 in
    (if port == 0 then 55669 else port, positive_or backlog exit_code, c2)
