-- ===== src/Server/Tests.antt =====
-- The theorems on src/serv.cpp at a concrete queue and concrete threads, and runs of its code.
use kvproxy.Base.{
  ℕ, suc, ◌<◌, ◌≡◌, refl, false, true, none, some, List, [], ◌∷◌, ◌++◌, ◌+◌, ◌*◌, ◌==◌,
  if◌then◌else◌, arith, length,
}
use kvproxy.Server.Queue.Links.{has}
use kvproxy.Server.Heap.{Conn, Ptr, Heap, ◌>>=◌}
use kvproxy.Server.Queue.{ConnQueue, new_queue, delete_all}
use kvproxy.Server.Queue.Life.{Change, opened, closed, changes, nodes, after_all, Holds, Stands}
use kvproxy.Server.Queue.Ends.{new_queue-changes, delete_all-Holds}
use kvproxy.Server.Threads.{LibeventThread, Server, turn}
use kvproxy.Server.Threads.Dealt.{accept_all, pipe_at, share, accept_all-share, accept_all-fair}
use kvproxy.Server.Threads.Served.{connected, opened_all}
use kvproxy.Server.Start.{Answers}
use kvproxy.Server.Made.{as_made}
use kvproxy.Server.Delivered.{deliver, deliver-Stands}

-- A queue between the nodes 10 and 20.
abbrev ends : ConnQueue
ends = record { head = 10; tail = 20 }

-- Three connections, of which the second ends.
abbrev some_changes : List Change
some_changes = opened 30 7 ∷ opened 40 8 ∷ opened 50 9 ∷ closed 40 ∷ []

new_queue-changes_example :
    (g : Heap) × ((new_queue 10 20 >>= λ q. changes 99 q some_changes) (λ _. none) ≡ some (tt, g))
    × Holds g 99 ends (after_all some_changes [])
new_queue-changes_example =
    new_queue-changes 99 10 20 some_changes (ground arith) (ground arith) (ground arith) refl

delete_all-Holds_example :
    (g : Heap) × (delete_all
        (length (nodes ((50, 9) ∷ (30, 7) ∷ [])) + 3)
        10
        new_queue-changes_example.0
      ≡ some (tt, g))
    × ((y : Ptr) → g y ≡ none)
delete_all-Holds_example =
    delete_all-Holds 99 ends new_queue-changes_example.0 ((50, 9) ∷ (30, 7) ∷ [])
      new_queue-changes_example.2

abbrev idle : ℕ → LibeventThread
idle i = record { me = 90 + i; index = i; pipe = []; connect_queue = ends; broken = false }

-- Two threads, before the first socket.
abbrev two_threads : Server
two_threads = record {
  thread_count = 2;
  threads = idle 0 ∷ idle 1 ∷ [];
  last_thread = 4294967295;
  exiting = false;
}

first_turn : turn two_threads ≡ 0
first_turn = refl

accept_all-share_example :
    (s' : Server) × (accept_all (5 ∷ 6 ∷ 7 ∷ []) two_threads ≡ some s')
    × (s'.thread_count ≡ 2)
    × (length s'.threads ≡ 2)
    × ((i : ℕ)
        → pipe_at i s'.threads ≡ pipe_at i two_threads.threads ++ share 2 0 i (5 ∷ 6 ∷ 7 ∷ []))
accept_all-share_example =
    accept_all-share (5 ∷ 6 ∷ 7 ∷ []) two_threads refl (omega arith) (omega arith)

accept_all-fair_example :
    (s' : Server) × (accept_all (5 ∷ 6 ∷ []) two_threads ≡ some s')
    × ((i : ℕ)
        → i < 2
        → length (pipe_at i s'.threads) ≡ suc (length (pipe_at i two_threads.threads)))
accept_all-fair_example =
    accept_all-fair (5 ∷ 6 ∷ []) two_threads refl (omega arith) (omega arith) refl

-- The number of connections, as the proxy counts them.
abbrev counted : Ptr → ℕ → ℕ
counted c n = n + 1

-- Everything is given to the threads.
abbrev all_given : ℕ → Answers
all_given i = record { has_base = true; has_pipe = true; has_event = true }

abbrev addresses : ℕ → Ptr
addresses i = 99 + i

abbrev queues : ℕ → ConnQueue
queues i = record { head = 10 + 100 * i; tail = 20 + 100 * i }

abbrev node : Ptr → Ptr → Conn
node prev next = record {
  fd = 4294967295;
  read_buf = none;
  write_buf = none;
  prev = prev;
  next = next;
  owner = none;
}

-- The queues of two threads, and one of the main thread.
abbrev three_queues : Heap
three_queues y =
    if y == 10
    then some (node 0 20)
    else if y == 20
    then some (node 10 0)
    else if y == 110
    then some (node 0 120)
    else if y == 120
    then some (node 110 0)
    else if y == 210
    then some (node 0 220)
    else if y == 220
    then some (node 210 0)
    else none

first-Stands : Stands three_queues 99 (queues 0) []
first-Stands = record {
  is_queue = record {
    links = (refl, refl);
    apart = (refl, (refl, tt));
    before = refl;
    behind = refl;
    not_null = refl;
  };
  sockets = tt;
}

-- Of three sockets the first of two threads gets two.
deliver-Stands_example :
    (g : Heap) × (deliver all_given addresses queues 2 counted
        (5 ∷ 6 ∷ 7 ∷ [])
        0
        (60 ∷ 70 ∷ [])
        three_queues
        0
      ≡ some (as_made addresses queues 0 [], g, connected counted (60 ∷ 70 ∷ []) 0))
    × Stands g 99 (queues 0) (opened_all (60 ∷ 70 ∷ []) (5 ∷ 7 ∷ []) [])
    × ((y : Ptr)
        → has y (60 ∷ 70 ∷ []) ≡ false
        → has y (10 ∷ 20 ∷ []) ≡ false
        → g y ≡ three_queues y)
deliver-Stands_example =
    deliver-Stands counted all_given addresses queues 2 (5 ∷ 6 ∷ 7 ∷ []) 0 (60 ∷ 70 ∷ [])
      three_queues [] 0 (λ j. (refl, refl, refl)) (omega arith) (omega arith) refl first-Stands refl
      (refl, (λ e. ground (arith, e)), refl, (refl, (λ e. ground (arith, e)), refl, tt))
