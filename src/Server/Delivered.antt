-- ===== src/Server/Delivered.antt =====
-- From the constructor of src/serv.cpp over its listener to the connections of a thread.
use native.Mathlib.Nat.{mod-eq_of_lt}
use mathlib.Core.List.{append-nil}
use kvproxy.Base.{
  ℕ, ◌+◌, ◌^◌, ◌<◌, ◌≡◌, refl, sym, ap, ◌∙◌, true, false, Option, none, some, List, [], ◌∷◌, ◌++◌,
  arith, length,
}
use kvproxy.Server.Heap.{Ptr, Heap}
use kvproxy.Server.Queue.{ConnQueue}
use kvproxy.Server.Queue.Links.{has}
use kvproxy.Server.Queue.Life.{Sockets, nodes, Stands}
use kvproxy.Server.Threads.{LibeventThread, Server, exit_code, turn}
use kvproxy.Server.Threads.Dealt.{accept_all, pipe_at, share, next_turn, accept_all-share}
use kvproxy.Server.Threads.Served.{serve, connected, opened_all, AreFree, no_exit, serve-Stands}
use kvproxy.Server.Start.{Answers, setup_threads, new_server}
use kvproxy.Server.Made.{
  thread_at, IsGiven, as_made, as_made-same, AreMade-thread_at, accept_all-AreMade,
  setup_threads-AreMade,
}

-- The server that the constructor makes of its threads.
abbrev new_of : ℕ → List LibeventThread → Server
new_of count ts = record {
  thread_count = count;
  threads = ts;
  last_thread = exit_code;
  exiting = false;
}

module _ (ok : ℕ → Answers) (me : ℕ → Ptr) (queue : ℕ → ConnQueue) (count : ℕ) where
  new_server-given :
      (ts : List LibeventThread)
      → setup_threads ok me queue count 0 ≡ some ts
      → new_server ok me queue count ≡ some (new_of count ts)
  unfolding new_server
  new_server-given ts e = rw (new_server, e) refl

  module _ {W : Type 0} (connection_event : Ptr → W → W) where
    -- The constructor; then the listener accepts the sockets; then thread i takes what its pipe holds.
    unfoldable pub deliver : List ℕ → ℕ → List Ptr → Heap → W → Option (LibeventThread × Heap × W)
    unfolding new_server accept_all serve
    deliver fds i cs h w = elim (new_server ok me queue count) [
      | none ↦ none
      | some s ↦ elim (accept_all fds s) [
        | none ↦ none
        | some s' ↦ elim (thread_at i s'.threads) [
          | none ↦ none
          | some t ↦ serve connection_event cs t h w
        ]
      ]
    ]

    deliver_next :
        (fds : List ℕ) (i : ℕ) (cs : List Ptr) (h : Heap) (w : W) (s s' : Server)
        (t : LibeventThread) (r : Option (LibeventThread × Heap × W))
        → new_server ok me queue count ≡ some s
        → accept_all fds s ≡ some s'
        → thread_at i s'.threads ≡ some t
        → serve connection_event cs t h w ≡ r
        → deliver fds i cs h w ≡ r
    unfolding deliver
    deliver_next fds i cs h w s s' t r a b c d = rw (deliver, a, b, c) d

no_exit-share : (n k i : ℕ) (fds : List ℕ) → no_exit fds ≡ true → no_exit (share n k i fds) ≡ true
no_exit-share n k i [] e = refl
no_exit-share n k i (fd ∷ fds) e = ground (arith, no_exit-share n (next_turn n k) i fds)

-- The first socket goes to thread 0.
turn-new : (count : ℕ) (ts : List LibeventThread) → 0 < count → turn (new_of count ts) ≡ 0
turn-new count ts p = mod-eq_of_lt {n = 0} {m = count} p

-- From the constructor on: where libevent and the system give each thread what it asks for, the listener
-- deals the sockets out, and thread i takes what its pipe holds. It then has made a connection of
-- its queue of every one of its share of the sockets, with itself as the owner, and has called the
-- class's function for each, in the order in which they were accepted; nothing waits in its pipe. What else is in
-- the heap, such as the other threads' queues, is as it was. There
-- are fewer than 2^32 threads and at least one; libevent makes the buffers, `new` returns different addresses
-- that are free, and no socket has the number of the message that ends a thread.
pub deliver-Stands :
    {W : Type 0} (connection_event : Ptr → W → W) (ok : ℕ → Answers) (me : ℕ → Ptr)
    (queue : ℕ → ConnQueue) (count : ℕ) (fds : List ℕ) (i : ℕ) (cs : List Ptr) (h : Heap)
    (xs : Sockets) (w : W)
    → ((j : ℕ) → IsGiven (ok j))
    → count < 2 ^ 32
    → i < count
    → no_exit fds ≡ true
    → Stands h (me i) (queue i) xs
    → length cs ≡ length (share count 0 i fds)
    → AreFree cs h
    → (g : Heap) × (deliver ok me queue count connection_event fds i cs h w
        ≡ some (as_made me queue i [], g, connected connection_event cs w))
      × Stands g (me i) (queue i) (opened_all cs (share count 0 i fds) xs)
      × ((y : Ptr)
          → has y cs ≡ false
          → has y ((queue i).head ∷ (queue i).tail ∷ nodes xs) ≡ false
          → g y ≡ h y)
deliver-Stands connection_event ok me queue count fds i cs h xs w given b l n is same free =
    let (ts, setup, len, made, empty) = setup_threads-AreMade me queue ok count 0 given in
    let s = new_of count ts in
    let (s', accepted, counted, threads, dealt) =
      accept_all-share fds s (sym len) (omega (arith, l)) b in
    let pipe : pipe_at i s'.threads ≡ share count 0 i fds ++ [] =
      dealt i
      ∙ ap (λ p. p ++ share count (turn s) i fds) (empty i)
      ∙ ap (λ k. share count k i fds) (turn-new count ts (omega (arith, l)))
      ∙ sym (append-nil _) in
    let found =
      AreMade-thread_at me queue i 0 s'.threads (accept_all-AreMade me queue fds s s' accepted made)
        (omega (arith, l, threads, len)) in
    let (g, served, end, others) =
      serve-Stands connection_event (me i) i (queue i) false cs (share count 0 i fds) [] h xs w is
        same (no_exit-share count 0 i fds n) free in
    (
      g,
      deliver_next ok me queue count connection_event fds i cs h w s s' _ _
          (new_server-given ok me queue count ts setup) accepted
          (found ∙ as_made-same me queue (i + 0) i _ _ (omega arith) pipe) served,
      end,
      others,
    )
