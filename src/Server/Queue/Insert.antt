-- ===== src/Server/Queue/Insert.antt =====
-- `insertConn` of src/serv.cpp in a heap.
use kvproxy.Base.{
  ℕ, ◌≡◌, ◌≢◌, refl, Bool, true, false, none, some, List, [], ◌∷◌, arith, ◌==◌, if◌then◌else◌,
}
use kvproxy.Server.Heap.{Ptr, null, Conn, Heap, write, new_conn}
use kvproxy.Server.Queue.{ConnQueue, insert_conn}
use kvproxy.Server.Queue.Links.{
  has, next_of, about, Dll, Distinct, Dll-frame, exists, conn_at, IsQueue, load-run, set_next-run,
  set_prev-run, set_owner-run,
}

-- The node of a new connection between its two neighbours.
abbrev pub fresh_conn : ℕ → Ptr → Ptr → Ptr → Conn
fresh_conn fd thread prev next = record {
  fd = fd;
  read_buf = none;
  write_buf = none;
  prev = prev;
  next = next;
  owner = some thread;
}

-- The node as the constructor leaves it, and once m_thread and m_prev are set.
abbrev bare : ℕ → Conn
bare fd = record {
  fd = fd;
  read_buf = none;
  write_buf = none;
  prev = null;
  next = null;
  owner = none;
}

abbrev owned : ℕ → Ptr → Ptr → Conn
owned fd t prev = record (bare fd) { owner = some t; prev = prev }

insert_conn-run :
    (c fd t : ℕ) (q : ConnQueue) (h : Heap) (a b : Conn)
    → h q.head ≡ some a
    → h a.next ≡ some b
    → q.head ≢ a.next
    → c ≢ q.head
    → c ≢ a.next
    → (g : Heap) × (insert_conn c fd t q h ≡ some (c, g))
      × ((y : Ptr)
          → g y ≡ (
              if y == c
              then some (fresh_conn fd t q.head a.next)
              else if y == q.head
              then some (record a { next = c })
              else if y == a.next
              then some (record b { prev = c })
              else h y))
unfolding insert_conn write new_conn
insert_conn-run c fd t q h a b e f ne n m =
    let h0 : Heap = write c (some (bare fd)) h in
    let h1 : Heap = write c (some (record (bare fd) { owner = some t })) h0 in
    let h2 : Heap = write c (some (owned fd t q.head)) h1 in
    let h3 : Heap = write c (some (fresh_conn fd t q.head a.next)) h2 in
    let h4 : Heap = write q.head (some (record a { next = c })) h3 in
    (
      write a.next (some (record b { prev = c })) h4,
      rw
          (
            set_owner-run c (bare fd) h0 (ground arith) t,
            load-run q.head a h1 (ground arith),
            set_prev-run c (record (bare fd) { owner = some t }) h1 (ground arith) q.head,
            set_next-run c (owned fd t q.head) h2 (ground arith) a.next,
            set_next-run q.head a h3 (ground arith) c,
            set_prev-run a.next b h4 (ground arith) c,
          )
          refl,
      λ y. ground arith,
    )

first_in :
    (h : Heap) (n a : Ptr) (xs : List Ptr) (b : Ptr)
    → Dll h a xs b
    → next_of h a ≡ some n
    → has n (b ∷ xs) ≡ true
first_in h n a [] b d e = ground arith
first_in h n a (x ∷ xs) b d e = ground arith

not_in : (b : Bool) → (b ≡ true → ⊥) → b ≡ false
not_in true f = absurd (f refl)
not_in false f = refl

-- The four nodes that take part are different.
unlike :
    (c n head tail : Ptr) (xs : List Ptr)
    → Distinct (head ∷ tail ∷ xs)
    → has c (head ∷ tail ∷ xs) ≡ false
    → has n (tail ∷ xs) ≡ true
    → (c ≢ head) × (c ≢ tail) × (c ≢ n) × (head ≢ tail) × (head ≢ n)
unlike c n head tail xs u o i =
    (ground arith, ground arith, ground arith, ground arith, ground arith)

insert-Distinct :
    (c head tail : Ptr) (xs : List Ptr)
    → Distinct (head ∷ tail ∷ xs)
    → has c (head ∷ tail ∷ xs) ≡ false
    → Distinct (head ∷ tail ∷ c ∷ xs)
insert-Distinct c head tail xs u o = ground arith

insert-not_null :
    (c head tail : Ptr) (xs : List Ptr)
    → c ≢ null
    → has null (head ∷ tail ∷ xs) ≡ false
    → has null (head ∷ tail ∷ c ∷ xs) ≡ false
insert-not_null c head tail xs n o = ground arith

outside_of :
    (y c n head tail : Ptr) (xs : List Ptr)
    → has y (head ∷ tail ∷ c ∷ xs) ≡ false
    → has n (tail ∷ xs) ≡ true
    → (y ≢ head) × (y ≢ c) × (y ≢ n)
outside_of y c n head tail xs o i = (ground arith, ground arith, ground arith)

module _ (h g : Heap) (c fd t : ℕ) (head tail : Ptr) (a b : Conn)
    (same : (y : Ptr)
      → g y ≡ (
          if y == c
          then some (fresh_conn fd t head a.next)
          else if y == head
          then some (record a { next = c })
          else if y == a.next
          then some (record b { prev = c })
          else h y))
    (e : h head ≡ some a) (f : h a.next ≡ some b) where
  insert-Dll :
      (xs : List Ptr)
      → Dll h head xs tail
      → Distinct (head ∷ tail ∷ xs)
      → has c (head ∷ tail ∷ xs) ≡ false
      → Dll g head (c ∷ xs) tail
  insert-Dll [] d u o = (
    ground (arith, same head),
    ground (arith, same c),
    (ground (arith, same c), ground (arith, same tail)),
  )
  insert-Dll (x ∷ xs) d u o = (
    ground (arith, same head),
    ground (arith, same c),
    (
      ground (arith, same c),
      ground (arith, same x),
      Dll-frame h g x xs tail d.2 (λ y i. ground (arith, same y)) (λ y i. ground (arith, same y)),
    ),
  )

  insert-IsQueue :
      (xs : List Ptr)
      → IsQueue h head tail xs
      → has c (head ∷ tail ∷ xs) ≡ false
      → c ≢ null
      → has a.next (tail ∷ xs) ≡ true
      → IsQueue g head tail (c ∷ xs)
  insert-IsQueue xs is out nz inside =
      let (nh, nt, nn, ht, hn) = unlike c a.next head tail xs is.apart out inside in
      record {
        links = insert-Dll xs is.links is.apart out;
        apart = insert-Distinct c head tail xs is.apart out;
        before = ground (arith, same head, is.before);
        behind = ground (arith, same tail, is.behind);
        not_null = insert-not_null c head tail xs nz is.not_null;
      }

  insert-about : (y : Ptr) → y ≢ c → about g y ≡ about h y
  insert-about y n = ground (arith, same y)

  insert-outside :
      (y : Ptr) (xs : List Ptr)
      → has a.next (tail ∷ xs) ≡ true
      → has y (head ∷ tail ∷ c ∷ xs) ≡ false
      → g y ≡ h y
  insert-outside y xs inside o =
      let (yh, yc, yn) = outside_of y c a.next head tail xs o inside in ground (arith, same y)

-- On a queue, and for a free address that is not null, `insertConn` puts the new connection in front
-- of the others, with its socket and thread and no buffers yet; what the other nodes say of their
-- connections, and every address outside the queue, stay as they were.
pub insert_conn-IsQueue :
    (c fd t : ℕ) (q : ConnQueue) (h : Heap) (xs : List Ptr)
    → IsQueue h q.head q.tail xs
    → h c ≡ none
    → c ≢ null
    → (g : Heap) × (insert_conn c fd t q h ≡ some (c, g))
      × IsQueue g q.head q.tail (c ∷ xs)
      × (about g c ≡ some (fd, none, none, some t))
      × ((y : Ptr) → y ≢ c → about g y ≡ about h y)
      × ((y : Ptr) → has y (q.head ∷ q.tail ∷ c ∷ xs) ≡ false → g y ≡ h y)
insert_conn-IsQueue c fd t q h xs is new nz =
    let (a, e) = conn_at h q.head (exists h q.head xs q.tail q.head is.links (ground arith)) in
    let inside = first_in h a.next q.head xs q.tail is.links (ground arith) in
    let (b, f) = conn_at h a.next (exists h q.head xs q.tail a.next is.links (ground arith)) in
    let out : has c (q.head ∷ q.tail ∷ xs) ≡ false =
      not_in _ λ i. exists h q.head xs q.tail c is.links (ground arith) new in
    let (nh, _, nn, _, hn) = unlike c a.next q.head q.tail xs is.apart out inside in
    let (g, run, same) = insert_conn-run c fd t q h a b e f hn nh nn in
    (
      g,
      run,
      insert-IsQueue h g c fd t q.head q.tail a b same e f xs is out nz inside,
      ground (arith, same c),
      insert-about h g c fd t q.head q.tail a b same e f,
      λ y o. insert-outside h g c fd t q.head q.tail a b same e f y xs inside o,
    )
