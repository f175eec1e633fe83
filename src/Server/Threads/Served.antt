-- ===== src/Server/Threads/Served.antt =====
-- What a thread of src/serv.cpp makes of the sockets in its pipe.
use kvproxy.Base.{
  ℕ, ◌≡◌, ◌≢◌, refl, sym, ◌∙◌, subst, ==_iff, Bool-cases, inl, inr, Bool, true, false, not, ◌&&◌,
  Option, none, some, List, [], ◌∷◌, ◌++◌, arith, ◌==◌, length,
}
use mathlib.Core.Bool.{false≢true}
use kvproxy.Server.Heap.{Ptr, null, Heap}
use kvproxy.Server.Queue.{ConnQueue}
use kvproxy.Server.Queue.Life.{Sockets, nodes, Stands, outside_queue, insert_conn-Stands}
use kvproxy.Server.Queue.Links.{has}
use kvproxy.Server.Threads.{LibeventThread, exit_code, thread_process}

module _ {W : Type 0} (connection_event : Ptr → W → W) where
  -- The events of a readable pipe, each with the address that `new` returns, where libevent makes the
  -- buffers.
  unfoldable pub serve : List Ptr → LibeventThread → Heap → W → Option (LibeventThread × Heap × W)
  unfolding thread_process
  serve [] t h w = some (t, h, w)
  serve (c ∷ cs) t h w = elim (thread_process connection_event c true t h w) [
    | none ↦ none
    | some (u, g, v) ↦ serve cs u g v
  ]

  -- What the class's function makes of the connections, one after the other.
  abbrev pub connected : List Ptr → W → W
  connected [] w = w
  connected (c ∷ cs) w = connected cs (connection_event c w)

serve_next :
    {W : Type 0} (connection_event : Ptr → W → W) (c : Ptr) (cs : List Ptr) (t u : LibeventThread)
    (h g : Heap) (w v : W) (r : Option (LibeventThread × Heap × W))
    → thread_process connection_event c true t h w ≡ some (u, g, v)
    → serve connection_event cs u g v ≡ r
    → serve connection_event (c ∷ cs) t h w ≡ r
unfolding serve
serve_next connection_event c cs t u h g w v r e f = rw (e, serve) f

abbrev pub opened_all : List Ptr → List ℕ → Sockets → Sockets
opened_all [] fds xs = xs
opened_all (c ∷ cs) [] xs = xs
opened_all (c ∷ cs) (fd ∷ fds) xs = opened_all cs fds ((c, fd) ∷ xs)

-- `new` returns addresses that hold nothing, each another one.
abbrev pub AreFree : List Ptr → Heap → Type 0
AreFree [] h = Unit
AreFree (c ∷ cs) h = (h c ≡ none) × (c ≢ null) × (has c cs ≡ false) × AreFree cs h

AreFree-same :
    (cs : List Ptr) (h g : Heap)
    → AreFree cs h
    → ((y : Ptr) → has y cs ≡ true → h y ≡ none → g y ≡ h y)
    → AreFree cs g
AreFree-same [] h g v same = tt
AreFree-same (c ∷ cs) h g (free, nz, once, v) same = (
  same c (ground (arith, ==_iff c c)) free ∙ free,
  nz,
  once,
  AreFree-same cs h g v (λ y i e. same y (ground arith) e),
)

abbrev pub no_exit : List ℕ → Bool
no_exit [] = true
no_exit (fd ∷ fds) = not (fd == exit_code) && no_exit fds

-- An address that is in the list and not in the queue.
apart :
    (y c : Ptr) (cs : List Ptr) (head tail : Ptr) (xs : List Ptr)
    → has y cs ≡ true
    → has c cs ≡ false
    → has y (head ∷ tail ∷ xs) ≡ false
    → has y (head ∷ tail ∷ c ∷ xs) ≡ false
apart y c cs head tail xs i once o = elim (Bool-cases (y == c)) [
  | inl hit ↦
      let same : y ≡ c = (==_iff y c).0 hit in
      absurd (false≢true (sym once ∙ subst (λ x. has x cs ≡ true) same i))
  | inr miss ↦ ground arith
]

module _ {W : Type 0} (connection_event : Ptr → W → W) (me : Ptr) (index : ℕ) (q : ConnQueue)
    (broken : Bool) where
  abbrev thread : List ℕ → LibeventThread
  thread pipe = record { me = me; index = index; pipe = pipe; connect_queue = q; broken = broken }

  process-socket :
      (c fd : ℕ) (rest : List ℕ) (h : Heap) (xs : Sockets) (w : W)
      → Stands h me q xs
      → (fd == exit_code) ≡ false
      → h c ≡ none
      → c ≢ null
      → (g : Heap) × (thread_process connection_event c true (thread (fd ∷ rest)) h w
          ≡ some (thread rest, g, connection_event c w))
        × Stands g me q ((c, fd) ∷ xs)
        × ((y : Ptr) → has y (q.head ∷ q.tail ∷ c ∷ nodes xs) ≡ false → g y ≡ h y)
  unfolding thread_process
  process-socket c fd rest h xs w is ne free nz =
      let (g, run, next, out) = insert_conn-Stands me q c fd h xs is free nz in
      (g, rw (ne, run) refl, next, out)

  -- A thread whose pipe holds sockets, and whatever follows them, takes each one in turn: every one of
  -- them becomes a connection of its queue, with this thread, and the class's function is called for
  -- each, in the order of the pipe; the rest of the pipe is as it was, and so is all else in the heap.
  -- libevent makes the buffers, and `new` returns addresses that are free.
  pub serve-Stands :
      (cs : List Ptr) (fds rest : List ℕ) (h : Heap) (xs : Sockets) (w : W)
      → Stands h me q xs
      → length cs ≡ length fds
      → no_exit fds ≡ true
      → AreFree cs h
      → (g : Heap) × (serve connection_event cs (thread (fds ++ rest)) h w
          ≡ some (thread rest, g, connected connection_event cs w))
        × Stands g me q (opened_all cs fds xs)
        × ((y : Ptr) → has y cs ≡ false → has y (q.head ∷ q.tail ∷ nodes xs) ≡ false → g y ≡ h y)
  unfolding serve
  serve-Stands [] [] rest h xs w is l n f = (h, refl, is, λ y i o. refl)
  serve-Stands [] (fd ∷ fds) rest h xs w is l n f = absurd (omega (arith, l))
  serve-Stands (c ∷ cs) [] rest h xs w is l n f = absurd (omega (arith, l))
  serve-Stands (c ∷ cs) (fd ∷ fds) rest h xs w is l n (free, nz, once, f) =
      let (g, run, next, out) =
        process-socket c fd (fds ++ rest) h xs w is (ground arith) free nz in
      let still : AreFree cs g = AreFree-same cs h g f λ y i e. out y (
        apart y c cs q.head q.tail (nodes xs) i once
          (outside_queue h q.head q.tail (nodes xs) y is.is_queue e)) in
      let (k, more, end, others) =
        serve-Stands cs fds rest g ((c, fd) ∷ xs) (connection_event c w) next (omega (arith, l))
          (ground arith) still in
      (
        k,
        serve_next connection_event c cs (thread (fd ∷ (fds ++ rest))) (thread (fds ++ rest)) h g w
            _ _ run more,
        end,
        λ y i o. others y (ground arith) (ground arith) ∙ out y (ground arith),
      )
