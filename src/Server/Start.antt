-- ===== src/Server/Start.antt =====
-- The constructor of class Server and `startRun` of src/serv.cpp. What the calls of libevent and of
-- the operating system answer are arguments; the calls that `startRun` makes are a list.
use kvproxy.Base.{
  ℕ, zero, suc, ◌+◌, ◌≡◌, Bool, false, not, Option, none, some, List, [], ◌∷◌, ◌++◌, ◌==◌, arith,
  ltb, if◌then◌else◌, length, Option-cases, inl, inr,
}
use kvproxy.Server.Heap.{Ptr}
use kvproxy.Server.Queue.{ConnQueue}
use kvproxy.Server.Threads.{LibeventThread, Server, exit_code}

-- What setupThread asks for: an event base, a pipe, and the event that watches the pipe.
pub record Answers : Type 0 where
  pub has_base : Bool
  pub has_pipe : Bool
  pub has_event : Bool

-- setupThread, for a thread at its address with its queue; `none` is errorQuit.
unfoldable pub setup_thread : Answers → Ptr → ConnQueue → ℕ → Option LibeventThread
setup_thread ok me queue i =
    if not ok.has_base
    then none
    else if not ok.has_pipe
    then none
    else if not ok.has_event
    then none
    else some (record { me = me; index = i; pipe = []; connect_queue = queue; broken = false })

-- The loop of the constructor from thread i on, with n threads left.
unfoldable pub setup_threads :
    (ℕ → Answers) → (ℕ → Ptr) → (ℕ → ConnQueue) → ℕ → ℕ → Option (List LibeventThread)
unfolding setup_thread
setup_threads ok me queue zero i = some []
setup_threads ok me queue (suc n) i = elim (setup_thread (ok i) (me i) (queue i) i) [
  | none ↦ none
  | some t ↦ elim (setup_threads ok me queue n (i + 1)) [ none ↦ none | some ts ↦ some (t ∷ ts) ]
]

-- Server::Server. The static variable of listenerEventCb starts with -1.
unfoldable pub new_server : (ℕ → Answers) → (ℕ → Ptr) → (ℕ → ConnQueue) → ℕ → Option Server
unfolding setup_threads
new_server ok me queue count = elim (setup_threads ok me queue count 0) [
  | none ↦ none
  | some ts ↦
      some (record { thread_count = count; threads = ts; last_thread = exit_code; exiting = false })
]

-- A call of startRun.
pub data Call : Type 0 where
  listener_new : ℕ → Call
  thread_create : ℕ → Call
  set_affinity : ℕ → ℕ → Call
  dispatch : Call
  listener_free : Call

abbrev pub create_threads : ℕ → ℕ → List Call
create_threads zero i = []
create_threads (suc n) i = thread_create i ∷ create_threads n (i + 1)

-- The loop that gives the first threads a processor each; `none` is errorQuit.
unfoldable pub pin_threads : (ℕ → Bool) → ℕ → ℕ → Option (List Call)
pin_threads pinned zero i = some []
pin_threads pinned (suc n) i =
    let rest = pin_threads pinned n (i + 1) in
    if pinned i then (elim rest [ none ↦ none | some cs ↦ some (set_affinity i i ∷ cs) ]) else none

-- How many threads get one.
abbrev pub cpu_num : Bool → ℕ → ℕ → ℕ
cpu_num affinity nprocs count =
    if not affinity then 0 else if ltb count nprocs then count else nprocs

-- startRun on Linux, with the calls that it makes in their order.
unfoldable pub start_run : ℕ → Bool → ℕ → ℕ → Bool → (ℕ → Bool) → Option (List Call)
unfolding pin_threads
start_run port affinity nprocs count bound pinned =
    let listening = not (port == exit_code) in
    if listening
    then (if bound
        then (elim (pin_threads pinned (cpu_num affinity nprocs count) 0) [
          | none ↦ none
          | some cs ↦ some (
              listener_new port ∷ (create_threads count 0 ++ (cs ++ dispatch ∷ listener_free ∷ [])))
        ])
        else none)
    else elim (pin_threads pinned (cpu_num affinity nprocs count) 0) [
      | none ↦ none
      | some cs ↦ some (create_threads count 0 ++ (cs ++ dispatch ∷ []))
    ]

-- The new server has as many threads as it counts, and it is the first one's turn.
setup_threads-length :
    (ok : ℕ → Answers) (me : ℕ → Ptr) (queue : ℕ → ConnQueue) (n i : ℕ) (ts : List LibeventThread)
    → setup_threads ok me queue n i ≡ some ts
    → length ts ≡ n
unfolding setup_threads
setup_threads-length ok me queue zero i ts e = ground arith
setup_threads-length ok me queue (suc n) i ts e =
    elim (Option-cases (setup_thread (ok i) (me i) (queue i) i)) [
      | inl bad ↦ absurd (ground arith)
      | inr (t, made) ↦ elim (Option-cases (setup_threads ok me queue n (i + 1))) [
        | inl bad ↦ absurd (ground arith)
        | inr (us, more) ↦
            let rest = setup_threads-length ok me queue n (i + 1) us more in ground arith
      ]
    ]

pub new_server-length :
    (ok : ℕ → Answers) (me : ℕ → Ptr) (queue : ℕ → ConnQueue) (count : ℕ) (s : Server)
    → new_server ok me queue count ≡ some s
    → (s.thread_count ≡ length s.threads) × (s.thread_count ≡ count) × (s.last_thread ≡ exit_code)
unfolding new_server
new_server-length ok me queue count s e = elim (Option-cases (setup_threads ok me queue count 0)) [
  | inl bad ↦ absurd (ground arith)
  | inr (ts, made) ↦ let same = setup_threads-length ok me queue count 0 ts made in ground arith
]
