-- ===== src/Server/Threads.antt =====
-- The threads of src/serv.cpp: the listener deals the sockets out, and each thread takes what its
-- pipe holds.
pub mod Dealt
pub mod Served
use kvproxy.Base.{
  ℕ, zero, suc, ◌-◌, ◌^◌, ◌%◌, Bool, true, false, Option, none, some, List, [], ◌∷◌, ◌++◌, ◌==◌,
  if◌then◌else◌,
}
use kvproxy.Base.Word.{add32}
use kvproxy.Server.Heap.{Ptr, Heap, Cmd, ◌>>=◌, ◌>>◌, done, load, store}
use kvproxy.Server.Queue.{ConnQueue, insert_conn, delete_conn}

-- EXIT_CODE, -1 as an `int`
abbrev pub exit_code : ℕ
exit_code = 2 ^ 32 - 1

-- A thread at its address: what was written to its pipe and not read, the oldest first, and whether
-- its loop was broken off.
pub record LibeventThread : Type 0 where
  pub me : Ptr
  pub index : ℕ
  pub pipe : List ℕ
  pub connect_queue : ConnQueue
  pub broken : Bool

pub record Server : Type 0 where
  pub thread_count : ℕ
  pub threads : List LibeventThread
  -- The static variable of `listenerEventCb`.
  pub last_thread : ℕ
  -- The loop of the main thread was told to end.
  pub exiting : Bool

-- write(m_threads[i].notify_send_fd, …); `none` is an index behind the array.
unfoldable pub push_at : ℕ → ℕ → List LibeventThread → Option (List LibeventThread)
push_at i x [] = none
push_at zero x (t ∷ ts) = some (record t { pipe = t.pipe ++ x ∷ [] } ∷ ts)
push_at (suc i) x (t ∷ ts) = elim (push_at i x ts) [ none ↦ none | some us ↦ some (t ∷ us) ]

-- (last_thread + 1) % server->m_thread_count
abbrev pub turn : Server → ℕ
turn s = add32 s.last_thread 1 % s.thread_count

-- listenerEventCb; `none` also where there is no thread to take the remainder by.
unfoldable pub listener_event : ℕ → Server → Option Server
unfolding push_at
listener_event fd s = if s.thread_count == 0 then none else elim (push_at (turn s) fd s.threads) [
  | none ↦ none
  | some ts ↦ some (record s { last_thread = turn s; threads = ts })
]

-- The loop of `stopRun`, for the first n threads.
unfoldable pub push_exit : ℕ → List LibeventThread → Option (List LibeventThread)
push_exit zero ts = some ts
push_exit (suc n) [] = none
push_exit (suc n) (t ∷ ts) = elim (push_exit n ts) [
  | none ↦ none
  | some us ↦ some (record t { pipe = t.pipe ++ exit_code ∷ [] } ∷ us)
]

-- stopRun
unfoldable pub stop_run : Server → Option Server
unfolding push_exit
stop_run s = elim (push_exit s.thread_count s.threads) [
  | none ↦ none
  | some ts ↦ some (record s { threads = ts; exiting = true })
]

abbrev pub set_thread_count : ℕ → Server → Server
set_thread_count n s = record s { thread_count = n }

-- The functions that a class built on Server gives for its events work on a `W`.
module _ {W : Type 0} where
  -- threadProcess, for a pipe that can be read. `made` is whether libevent makes a buffer for the
  -- socket, and `fresh` the address that `new` returns for the connection.
  unfoldable pub thread_process :
      (connection_event : Ptr → W → W)
      → Ptr
      → Bool
      → LibeventThread
      → Heap
      → W
      → Option (LibeventThread × Heap × W)
  unfolding insert_conn
  thread_process connection_event fresh made t h w = elim t.pipe [
    | [] ↦ none
    | confd ∷ rest ↦
        if confd == exit_code
        then some (record t { pipe = rest; broken = true }, h, w)
        else if made
        then elim (insert_conn fresh confd t.me t.connect_queue h) [
          | none ↦ none
          | some (conn, g) ↦ some (record t { pipe = rest }, g, connection_event conn w)
        ]
        else some (record t { pipe = rest; broken = true }, h, w)
  ]

  -- readEventCb and writeEventCb: the buffers of the socket, then the class's function.
  unfoldable pub buffer_event : (Ptr → W → W) → Ptr → Ptr → Ptr → Heap → W → Option (Heap × W)
  unfolding load store
  buffer_event event conn input output h w = elim (h conn) [
    | none ↦ none
    | some c ↦ elim c.owner [
      | none ↦ none
      | some _ ↦ elim (store conn (record c { read_buf = some input; write_buf = some output }) h) [
        | none ↦ none
        | some (_, g) ↦ some (g, event conn w)
      ]
    ]
  ]

  -- closeEventCb: the class's function, then the end of the connection.
  unfoldable pub close_event_cb : (Ptr → W → W) → Ptr → Heap → W → Option (Heap × W)
  unfolding load delete_conn
  close_event_cb close_event conn h w = elim (h conn) [
    | none ↦ none
    | some c ↦ elim c.owner [
      | none ↦ none
      | some _ ↦ elim (delete_conn conn h) [
        | none ↦ none
        | some (_, g) ↦ some (g, close_event conn w)
      ]
    ]
  ]
