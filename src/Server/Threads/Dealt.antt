-- ===== src/Server/Threads/Dealt.antt =====
-- `listenerEventCb` of src/serv.cpp gives the sockets to the threads in turn.
use native.Mathlib.Nat.{mod-eq_of_lt, mod_self, mod-lt}
use mathlib.Core.List.{append_assoc, append-nil}
use kvproxy.Base.{
  ℕ, zero, suc, ◌+◌, ◌%◌, ◌^◌, ◌<◌, ◌≤◌, ◌≡◌, refl, sym, ap, ◌∙◌, inl, inr, false, ◌&&◌, ◌||◌,
  Option, none, some, List, [], ◌∷◌, ◌++◌, arith, ◌==◌, ltb, leb, if◌then◌else◌, length,
  length-append, Bool-cases,
}
use kvproxy.Base.Word.{add32, add32-eq-add}
use kvproxy.Server.Threads.{LibeventThread, Server, push_at, turn, listener_event}

-- The sockets are accepted one after the other.
unfoldable pub accept_all : List ℕ → Server → Option Server
unfolding listener_event
accept_all [] s = some s
accept_all (fd ∷ fds) s = elim (listener_event fd s) [ none ↦ none | some s' ↦ accept_all fds s' ]

abbrev pub pipe_at : ℕ → List LibeventThread → List ℕ
pipe_at i [] = []
pipe_at zero (t ∷ ts) = t.pipe
pipe_at (suc i) (t ∷ ts) = pipe_at i ts

-- The thread whose turn comes after that of thread k, of n.
abbrev pub next_turn : ℕ → ℕ → ℕ
next_turn n k = if suc k == n then 0 else suc k

-- What thread i gets, of n, when the first socket goes to thread k.
abbrev pub share : ℕ → ℕ → ℕ → List ℕ → List ℕ
share n k i [] = []
share n k i (fd ∷ fds) =
    if k == i then fd ∷ share n (next_turn n k) i fds else share n (next_turn n k) i fds

head_pipe :
    (t : LibeventThread) (x : ℕ) (ts : List LibeventThread) (j : ℕ)
    → pipe_at j (record t { pipe = t.pipe ++ x ∷ [] } ∷ ts)
      ≡ pipe_at j (t ∷ ts) ++ (if 0 == j then x ∷ [] else [])
head_pipe t x ts zero = refl
head_pipe t x ts (suc j) = ground (arith, append-nil (pipe_at j ts))

tail_pipe :
    (t : LibeventThread) (i x : ℕ) (us ts : List LibeventThread) (j : ℕ)
    → ((k : ℕ) → pipe_at k us ≡ pipe_at k ts ++ (if i == k then x ∷ [] else []))
    → pipe_at j (t ∷ us) ≡ pipe_at j (t ∷ ts) ++ (if suc i == j then x ∷ [] else [])
tail_pipe t i x us ts zero pipes = ground (arith, append-nil t.pipe)
tail_pipe t i x us ts (suc j) pipes = pipes j ∙ ground arith

push_at-pipe_at :
    (i x : ℕ) (ts : List LibeventThread)
    → i < length ts
    → (us : List LibeventThread) × (push_at i x ts ≡ some us)
      × (length us ≡ length ts)
      × ((j : ℕ) → pipe_at j us ≡ pipe_at j ts ++ (if i == j then x ∷ [] else []))
unfolding push_at
push_at-pipe_at i x [] h = absurd (omega arith)
push_at-pipe_at zero x (t ∷ ts) h = (_, refl, refl, head_pipe t x ts)
push_at-pipe_at (suc i) x (t ∷ ts) h =
    let (us, run, len, pipes) = push_at-pipe_at i x ts (omega arith) in
    (t ∷ us, rw run refl, omega (arith, len), λ j. tail_pipe t i x us ts j pipes)

-- The remainder comes to the next thread, or back to the first.
add32-next_turn : (n k : ℕ) → k < n → n < 2 ^ 32 → add32 k 1 % n ≡ next_turn n k
add32-next_turn n k h b =
    ap (λ m. m % n) (add32-eq-add k 1 (omega arith)) ∙ elim (Bool-cases (suc k == n)) [
      | inl hit ↦ let last : k + 1 ≡ n = ground arith in rw (hit, last) (mod_self n)
      | inr miss ↦ rw miss (mod-eq_of_lt {n = k + 1} {m = n} (ground arith) ∙ omega arith)
    ]

share-step :
    (p : List ℕ) (n k i fd : ℕ) (fds : List ℕ)
    → (p ++ (if k == i then fd ∷ [] else [])) ++ share n (next_turn n k) i fds
      ≡ p ++ share n k i (fd ∷ fds)
share-step p n k i fd fds = elim (Bool-cases (k == i)) [
  | inl hit ↦ rw hit (append_assoc p (fd ∷ []) _)
  | inr miss ↦ rw (miss, append-nil p) refl
]

abbrev dealt_to : List LibeventThread → Server → Server
dealt_to us s = record s { last_thread = turn s; threads = us }

listener_event-pipe_at :
    (fd : ℕ) (s : Server)
    → turn s < length s.threads
    → 0 < s.thread_count
    → (us : List LibeventThread) × (listener_event fd s ≡ some (dealt_to us s))
      × (length us ≡ length s.threads)
      × ((j : ℕ) → pipe_at j us ≡ pipe_at j s.threads ++ (if turn s == j then fd ∷ [] else []))
unfolding listener_event
listener_event-pipe_at fd s k p =
    let (us, run, len, pipes) = push_at-pipe_at (turn s) fd s.threads k in
    let some_thread : (s.thread_count == 0) ≡ false = ground arith in
    (us, rw (some_thread, run) refl, len, pipes)

-- Whether thread i is among the m whose turn comes from thread k on.
abbrev among : ℕ → ℕ → ℕ → ℕ → ℕ
among n k i m = if (leb k i && ltb i (k + m)) || ltb (i + n) (k + m) then 1 else 0

length-share :
    (n k i : ℕ) (fds : List ℕ)
    → k < n
    → i < n
    → length fds ≤ n
    → length (share n k i fds) ≡ among n k i (length fds)
length-share n k i [] h l e = ground arith
length-share n k i (fd ∷ fds) h l e = ground (arith, length-share n (next_turn n k) i fds)

accept_next :
    (fd : ℕ) (fds : List ℕ) (s s1 : Server) (r : Option Server)
    → listener_event fd s ≡ some s1
    → accept_all fds s1 ≡ r
    → accept_all (fd ∷ fds) s ≡ r
unfolding accept_all
accept_next fd fds s s1 r e f = rw (e, accept_all) f

-- Accepted one after the other, the sockets are dealt out to the threads in turn: each pipe gets, behind what
-- it held, every n-th of them from its thread's turn on, in their order. The first turn is the one
-- that the static variable stands before; there is a thread for each number below the count.
pub accept_all-share :
    (fds : List ℕ) (s : Server)
    → s.thread_count ≡ length s.threads
    → 0 < s.thread_count
    → s.thread_count < 2 ^ 32
    → (s' : Server) × (accept_all fds s ≡ some s')
      × (s'.thread_count ≡ s.thread_count)
      × (length s'.threads ≡ length s.threads)
      × ((i : ℕ)
          → pipe_at i s'.threads ≡ pipe_at i s.threads ++ share s.thread_count (turn s) i fds)
unfolding accept_all
accept_all-share [] s c p b = (s, refl, refl, refl, λ i. sym (append-nil _))
accept_all-share (fd ∷ fds) s c p b =
    let k : turn s < s.thread_count = mod-lt _ p in
    let (us, run, len, pipes) = listener_event-pipe_at fd s (omega (arith, k, c)) p in
    let (s', rest, count, size, dealt) =
      accept_all-share fds (dealt_to us s) (omega (arith, c, len)) p b in
    (
      s',
      accept_next fd fds s _ _ run rest,
      count,
      size ∙ len,
      λ i.
          dealt i
          ∙ rw (pipes i, add32-next_turn s.thread_count (turn s) k b)
              (share-step (pipe_at i s.threads) s.thread_count (turn s) i fd fds),
    )

share-fair :
    (n k i : ℕ) (fds : List ℕ) → k < n → i < n → length fds ≡ n → length (share n k i fds) ≡ 1
share-fair n k i fds h l e =
    let some_hit : among n k i (length fds) ≡ 1 = ground arith in
    length-share n k i fds h l (omega (arith, e)) ∙ some_hit

-- Whatever the static variable holds, of as many sockets in a row as there are threads each thread gets exactly
-- one: no thread is passed over.
pub accept_all-fair :
    (fds : List ℕ) (s : Server)
    → s.thread_count ≡ length s.threads
    → 0 < s.thread_count
    → s.thread_count < 2 ^ 32
    → length fds ≡ s.thread_count
    → (s' : Server) × (accept_all fds s ≡ some s')
      × ((i : ℕ)
          → i < s.thread_count
          → length (pipe_at i s'.threads) ≡ suc (length (pipe_at i s.threads)))
accept_all-fair fds s c p b e =
    let (s', run, _, _, dealt) = accept_all-share fds s c p b in
    (
      s',
      run,
      λ i h.
          ap length (dealt i)
          ∙ length-append (pipe_at i s.threads) (share s.thread_count (turn s) i fds)
          ∙ omega (arith, share-fair s.thread_count (turn s) i fds (mod-lt _ p) h e),
    )
