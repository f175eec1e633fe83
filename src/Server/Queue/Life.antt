-- ===== src/Server/Queue/Life.antt =====
-- The life of a queue of src/serv.cpp: its constructor, connections that come and go, its destructor.
use kvproxy.Base.{
  ℕ, ◌≡◌, ◌≢◌, refl, inl, inr, Bool, true, false, not, ◌&&◌, none, some, List, [], ◌∷◌, arith, ◌==◌,
  if◌then◌else◌, Bool-cases,
}
use kvproxy.Server.Heap.{Ptr, null, Heap, Cmd, ◌>>◌, done}
use kvproxy.Server.Queue.{ConnQueue, insert_conn, delete_conn}
use kvproxy.Server.Queue.Links.{exists, has, about, Distinct, IsQueue}
use kvproxy.Server.Queue.Insert.{insert_conn-IsQueue}
use kvproxy.Server.Queue.Delete.{remove, delete_conn-IsQueue}

-- What a thread asks of its queue: a connection for a socket, at the address that `new` returns, and
-- the end of one.
pub data Change : Type 0 where
  opened : Ptr → ℕ → Change
  closed : Ptr → Change

-- The calls of `threadProcess` and `closeEventCb`, for the queue of one thread.
unfoldable pub change : Ptr → ConnQueue → Change → Cmd (Unit {0})
unfolding insert_conn delete_conn
change thread q (opened fresh fd) = insert_conn fresh fd thread q >> done tt
change thread q (closed c) = delete_conn c

unfoldable pub changes : Ptr → ConnQueue → List Change → Cmd (Unit {0})
unfolding change
changes thread q [] = done tt
changes thread q (x ∷ rest) = change thread q x >> changes thread q rest

-- The same on the bare list of connections, with their sockets.
abbrev pub Sockets : Type 0
Sockets = List (Ptr × ℕ)

abbrev pub without : Ptr → Sockets → Sockets
without c [] = []
without c ((p, fd) ∷ xs) = if c == p then xs else (p, fd) ∷ without c xs

abbrev pub after : Change → Sockets → Sockets
after (opened fresh fd) xs = (fresh, fd) ∷ xs
after (closed c) xs = without c xs

abbrev pub after_all : List Change → Sockets → Sockets
after_all [] xs = xs
after_all (x ∷ rest) xs = after_all rest (after x xs)

abbrev pub nodes : Sockets → List Ptr
nodes [] = []
nodes ((p, _) ∷ xs) = p ∷ nodes xs

-- What a program may ask: `new` returns an address that no node has, and a connection ends once.
abbrev pub allowed : Change → ConnQueue → Sockets → Bool
allowed (opened fresh fd) q xs = not (has fresh (null ∷ q.head ∷ q.tail ∷ nodes xs))
allowed (closed c) q xs = has c (nodes xs)

abbrev pub all_allowed : List Change → ConnQueue → Sockets → Bool
all_allowed [] q xs = true
all_allowed (x ∷ rest) q xs = allowed x q xs && all_allowed rest q (after x xs)

-- Each connection has its socket, its thread and no buffers yet.
abbrev pub IsAbout : Heap → Ptr → Sockets → Type 0
IsAbout h thread [] = Unit
IsAbout h thread ((p, fd) ∷ xs) =
    (about h p ≡ some (fd, none, none, some thread)) × IsAbout h thread xs

-- The heap holds the queue's nodes and no others, and each connection has its socket and thread.
pub record Holds (h : Heap) (thread : Ptr) (q : ConnQueue) (xs : Sockets) : Type 0 where
  pub is_queue : IsQueue h q.head q.tail (nodes xs)
  pub only : (y : Ptr) → has y (q.head ∷ q.tail ∷ nodes xs) ≡ false → h y ≡ none
  pub sockets : IsAbout h thread xs

-- The queue's nodes are linked, and each connection has its socket and thread; the heap may hold other
-- nodes as well.
pub record Stands (h : Heap) (thread : Ptr) (q : ConnQueue) (xs : Sockets) : Type 0 where
  pub is_queue : IsQueue h q.head q.tail (nodes xs)
  pub sockets : IsAbout h thread xs

IsAbout-frame :
    (h g : Heap) (c thread : Ptr) (xs : Sockets)
    → IsAbout h thread xs
    → has c (nodes xs) ≡ false
    → ((y : Ptr) → y ≢ c → about g y ≡ about h y)
    → IsAbout g thread xs
IsAbout-frame h g c thread [] a o same = tt
IsAbout-frame h g c thread ((p, fd) ∷ xs) a o same =
    (ground (arith, same p), IsAbout-frame h g c thread xs a.1 (ground arith) same)

IsAbout-without :
    (h g : Heap) (c thread : Ptr) (xs : Sockets)
    → IsAbout h thread xs
    → Distinct (nodes xs)
    → ((y : Ptr) → y ≢ c → about g y ≡ about h y)
    → IsAbout g thread (without c xs)
IsAbout-without h g c thread [] a u same = tt
IsAbout-without h g c thread ((p, fd) ∷ xs) a u same = elim (Bool-cases (c == p)) [
  | inl hit ↦ rw hit (IsAbout-frame h g c thread xs a.1 (ground arith) same)
  | inr miss ↦ rw miss (ground (arith, same p), IsAbout-without h g c thread xs a.1 u.1 same)
]

nodes-without : (c : Ptr) (xs : Sockets) → nodes (without c xs) ≡ remove c (nodes xs)
nodes-without c [] = refl
nodes-without c ((p, fd) ∷ xs) = ground (arith, nodes-without c xs)

still_out :
    (y c : Ptr) (xs : Sockets)
    → y ≢ c
    → has y (nodes (without c xs)) ≡ false
    → has y (nodes xs) ≡ false
still_out y c [] n o = refl
still_out y c ((p, fd) ∷ xs) n o = ground (arith, still_out y c xs n)

-- A free address stays free, and so does the one that was given back.
free_after :
    (h g : Heap) (c head tail y : Ptr) (xs : Sockets)
    → ((z : Ptr) → has z (head ∷ tail ∷ nodes xs) ≡ false → h z ≡ none)
    → g c ≡ none
    → ((z : Ptr) → has z (head ∷ tail ∷ nodes xs) ≡ false → g z ≡ h z)
    → has y (head ∷ tail ∷ nodes (without c xs)) ≡ false
    → g y ≡ none
free_after h g c head tail y xs only gone out n = elim (Bool-cases (y == c)) [
  | inl hit ↦ ground (arith, gone, hit)
  | inr miss ↦ ground (arith, out y, only y, still_out y c xs (ground arith) (ground arith))
]

-- A free address is not in a queue.
pub outside_queue :
    (h : Heap) (head tail : Ptr) (xs : List Ptr) (y : Ptr)
    → IsQueue h head tail xs
    → h y ≡ none
    → has y (head ∷ tail ∷ xs) ≡ false
outside_queue h head tail xs y is free = elim (Bool-cases (has y (head ∷ tail ∷ xs))) [
  | inr out ↦ out
  | inl i ↦ absurd (exists h head xs tail y is.links (ground arith) free)
]

module _ (thread : Ptr) (q : ConnQueue) where
  pub insert_conn-Holds :
      (fresh fd : ℕ) (h : Heap) (xs : Sockets)
      → Holds h thread q xs
      → has fresh (null ∷ q.head ∷ q.tail ∷ nodes xs) ≡ false
      → (g : Heap) × (insert_conn fresh fd thread q h ≡ some (fresh, g))
        × Holds g thread q ((fresh, fd) ∷ xs)
  insert_conn-Holds fresh fd h xs is o =
      let (g, run, isq, new, same, out) =
        insert_conn-IsQueue fresh fd thread q h (nodes xs) is.is_queue
          (is.only fresh (ground arith)) (ground arith) in
      (
        g,
        run,
        record {
          is_queue = isq;
          only = λ y n. ground (arith, out y, is.only y);
          sockets = (new, IsAbout-frame h g fresh thread xs is.sockets (ground arith) same);
        },
      )

  pub insert_conn-Stands :
      (fresh fd : ℕ) (h : Heap) (xs : Sockets)
      → Stands h thread q xs
      → h fresh ≡ none
      → fresh ≢ null
      → (g : Heap) × (insert_conn fresh fd thread q h ≡ some (fresh, g))
        × Stands g thread q ((fresh, fd) ∷ xs)
        × ((y : Ptr) → has y (q.head ∷ q.tail ∷ fresh ∷ nodes xs) ≡ false → g y ≡ h y)
  insert_conn-Stands fresh fd h xs is new nz =
      let (g, run, isq, made, same, out) =
        insert_conn-IsQueue fresh fd thread q h (nodes xs) is.is_queue new nz in
      let apart : has fresh (nodes xs) ≡ false =
        ground (arith, outside_queue h q.head q.tail (nodes xs) fresh is.is_queue new) in
      (
        g,
        run,
        record {
          is_queue = isq;
          sockets = (made, IsAbout-frame h g fresh thread xs is.sockets apart same);
        },
        out,
      )

  opened-Holds :
      (fresh fd : ℕ) (h : Heap) (xs : Sockets)
      → Holds h thread q xs
      → has fresh (null ∷ q.head ∷ q.tail ∷ nodes xs) ≡ false
      → (g : Heap) × (change thread q (opened fresh fd) h ≡ some (tt, g))
        × Holds g thread q ((fresh, fd) ∷ xs)
  unfolding change
  opened-Holds fresh fd h xs is o =
      let (g, run, next) = insert_conn-Holds fresh fd h xs is o in (g, rw run refl, next)

  closed-Holds :
      (c : Ptr) (h : Heap) (xs : Sockets)
      → Holds h thread q xs
      → has c (nodes xs) ≡ true
      → (g : Heap) × (change thread q (closed c) h ≡ some (tt, g)) × Holds g thread q (without c xs)
  unfolding change
  closed-Holds c h xs is i =
      let (g, run, isq, gone, same, out) = delete_conn-IsQueue c q h (nodes xs) is.is_queue i in
      (
        g,
        run,
        record {
          is_queue = rw (nodes-without c xs) isq;
          only = λ y n. free_after h g c q.head q.tail y xs is.only gone out n;
          sockets = IsAbout-without h g c thread xs is.sockets is.is_queue.apart.1.1 same;
        },
      )

  pub changes-Holds :
      (cs : List Change) (h : Heap) (xs : Sockets)
      → Holds h thread q xs
      → all_allowed cs q xs ≡ true
      → (g : Heap) × (changes thread q cs h ≡ some (tt, g)) × Holds g thread q (after_all cs xs)
  unfolding changes
  changes-Holds [] h xs is ok = (h, refl, is)
  changes-Holds (opened fresh fd ∷ cs) h xs is ok =
      let (g, run, next) = opened-Holds fresh fd h xs is (ground arith) in
      let (f, rest, end) = changes-Holds cs g ((fresh, fd) ∷ xs) next (ground arith) in
      (f, rw (run, rest) refl, end)
  changes-Holds (closed c ∷ cs) h xs is ok =
      let (g, run, next) = closed-Holds c h xs is (ground arith) in
      let (f, rest, end) = changes-Holds cs g (without c xs) next (ground arith) in
      (f, rw (run, rest) refl, end)
