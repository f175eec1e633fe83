-- ===== src/Server/Queue/Delete.antt =====
-- `deleteConn` of src/serv.cpp in a heap.
use kvproxy.Base.{
  ◌≡◌, ◌≢◌, refl, inl, inr, true, false, none, some, List, [], ◌∷◌, arith, ◌==◌, if◌then◌else◌,
  Bool-cases,
}
use kvproxy.Server.Heap.{Ptr, null, Conn, Heap, write}
use kvproxy.Server.Queue.{ConnQueue, delete_conn}
use kvproxy.Server.Queue.Links.{
  has, next_of, prev_of, about, Dll, Distinct, Dll-frame, load-run, set_next-run, set_prev-run,
  free-run, exists, conn_at, IsQueue,
}

delete_conn-run :
    (c : Ptr) (h : Heap) (m a b : Conn)
    → h c ≡ some m
    → h m.prev ≡ some a
    → h m.next ≡ some b
    → m.prev ≢ m.next
    → c ≢ m.prev
    → c ≢ m.next
    → (g : Heap) × (delete_conn c h ≡ some (tt, g))
      × ((y : Ptr)
          → g y ≡ (
              if y == c
              then none
              else if y == m.prev
              then some (record a { next = m.next })
              else if y == m.next
              then some (record b { prev = m.prev })
              else h y))
unfolding delete_conn write
delete_conn-run c h m a b d e f ne n k =
    let h1 : Heap = write m.prev (some (record a { next = m.next })) h in
    let h2 : Heap = write m.next (some (record b { prev = m.prev })) h1 in
    (
      write c none h2,
      rw
          (
            load-run c m h d,
            set_next-run m.prev a h e m.next,
            load-run c m h1 (ground arith),
            set_prev-run m.next b h1 (ground arith) m.prev,
            free-run c m h2 (ground arith),
          )
          refl,
      λ y. ground arith,
    )

-- The list without the first place of `c`.
abbrev pub remove : Ptr → List Ptr → List Ptr
remove c [] = []
remove c (x ∷ xs) = if c == x then xs else x ∷ remove c xs

prev_in :
    (h : Heap) (c p a : Ptr) (xs : List Ptr) (b : Ptr)
    → Dll h a xs b
    → has c xs ≡ true
    → prev_of h c ≡ some p
    → has p (a ∷ xs) ≡ true
prev_in h c p a [] b d i e = ground arith
prev_in h c p a (x ∷ xs) b d i e = ground (arith, prev_in h c p x xs b d.2)

next_in :
    (h : Heap) (c n a : Ptr) (xs : List Ptr) (b : Ptr)
    → Dll h a xs b
    → has c xs ≡ true
    → next_of h c ≡ some n
    → has n (b ∷ xs) ≡ true
next_in h c n a [] b d i e = ground arith
next_in h c n a (x ∷ []) b d i e = ground arith
next_in h c n a (x ∷ x' ∷ xs) b d i e = ground (arith, next_in h c n x (x' ∷ xs) b d.2)

-- The nodes on both sides of a connection.
neighbours :
    (h : Heap) (c : Ptr) (m : Conn) (a : Ptr) (xs : List Ptr) (b : Ptr)
    → Dll h a xs b
    → Distinct (a ∷ b ∷ xs)
    → has c xs ≡ true
    → h c ≡ some m
    → (m.prev ≢ m.next) × (c ≢ m.prev) × (c ≢ m.next)
neighbours h c m a [] b d u i e = absurd (ground arith)
neighbours h c m a (x ∷ []) b d u i e = (ground arith, ground arith, ground arith)
neighbours h c m a (x ∷ y ∷ xs) b d u i e = elim (Bool-cases (c == x)) [
  | inl hit ↦ (ground arith, ground arith, ground arith)
  | inr miss ↦ neighbours h c m x (y ∷ xs) b d.2 (ground arith) (ground arith) e
]

-- What `remove` leaves is part of the list.
has-remove : (y c : Ptr) (xs : List Ptr) → has y xs ≡ false → has y (remove c xs) ≡ false
has-remove y c [] o = refl
has-remove y c (x ∷ xs) o = ground (arith, has-remove y c xs)

Distinct-remove : (c : Ptr) (xs : List Ptr) → Distinct xs → Distinct (remove c xs)
Distinct-remove c [] u = tt
Distinct-remove c (x ∷ xs) u = elim (Bool-cases (c == x)) [
  | inl hit ↦ rw hit u.1
  | inr miss ↦ rw miss (has-remove x c xs u.0, Distinct-remove c xs u.1)
]

away : (c y : Ptr) (xs : List Ptr) → has c xs ≡ true → has y xs ≡ false → y ≢ c
away c y [] i o = absurd (ground arith)
away c y (x ∷ xs) i o = ground (arith, away c y xs)

ends_apart :
    (p n head tail : Ptr) (xs : List Ptr)
    → Distinct (head ∷ tail ∷ xs)
    → has p (head ∷ xs) ≡ true
    → has n (tail ∷ xs) ≡ true
    → (p ≢ tail) × (n ≢ head)
ends_apart p n head tail xs u i j = (ground (arith, away p tail xs), ground (arith, away n head xs))

outside_of :
    (y p n head tail : Ptr) (xs : List Ptr)
    → has y (head ∷ tail ∷ xs) ≡ false
    → has p (head ∷ xs) ≡ true
    → has n (tail ∷ xs) ≡ true
    → (y ≢ p) × (y ≢ n)
outside_of y p n head tail xs o i j = (ground (arith, away p y xs), ground (arith, away n y xs))

module _ (h g : Heap) (c : Ptr) (m a b : Conn) (d : h c ≡ some m) (e : h m.prev ≡ some a)
    (f : h m.next ≡ some b)
    (same : (y : Ptr)
      → g y ≡ (
          if y == c
          then none
          else if y == m.prev
          then some (record a { next = m.next })
          else if y == m.next
          then some (record b { prev = m.prev })
          else h y)) where
  remove-Dll :
      (p : Ptr) (xs : List Ptr) (n : Ptr)
      → Dll h p xs n
      → Distinct (p ∷ n ∷ xs)
      → has c xs ≡ true
      → Dll g p (remove c xs) n
  remove-Dll p [] n l u i = absurd (ground arith)
  remove-Dll p (x ∷ xs) n l u i = elim (Bool-cases (c == x)) [
    | inl hit ↦ rw hit (first xs hit l u)
    | inr miss ↦ rw miss (
      ground (arith, same p, prev_in h c m.prev x xs n),
      ground (arith, same x, next_in h c m.next x xs n),
      remove-Dll x xs n l.2 (ground arith) (ground arith),
    )
  ]
    where
      first :
          (xs : List Ptr)
          → (c == x) ≡ true
          → Dll h p (x ∷ xs) n
          → Distinct (p ∷ n ∷ x ∷ xs)
          → Dll g p xs n
      first [] hit l u = (ground (arith, same p), ground (arith, same n))
      first (y ∷ xs) hit l u = (
        ground (arith, same p),
        ground (arith, same y),
        Dll-frame h g y xs n l.2.2 (λ z j. ground (arith, same z)) (λ z j. ground (arith, same z)),
      )

  remove-IsQueue :
      (head tail : Ptr) (xs : List Ptr)
      → IsQueue h head tail xs
      → has c xs ≡ true
      → m.prev ≢ tail
      → m.next ≢ head
      → IsQueue g head tail (remove c xs)
  remove-IsQueue head tail xs is i p n = record {
    links = remove-Dll head xs tail is.links is.apart i;
    apart = (
      ground (arith, is.apart, has-remove head c xs),
      (has-remove tail c xs is.apart.1.0, Distinct-remove c xs is.apart.1.1),
    );
    before = ground (arith, same head, is.before, is.apart, away c head xs i);
    behind = ground (arith, same tail, is.behind, is.apart, away c tail xs i);
    not_null = ground (arith, is.not_null, has-remove null c xs);
  }

  remove-about : (y : Ptr) → y ≢ c → about g y ≡ about h y
  remove-about y n = ground (arith, same y)

  remove-outside : (y : Ptr) → y ≢ c → y ≢ m.prev → y ≢ m.next → g y ≡ h y
  remove-outside y n k l = ground (arith, same y)

-- On a queue that holds the connection, `deleteConn` takes it out, the others in their order, and
-- frees its node; what the other nodes say of their connections, and every address outside the queue,
-- stay as they were.
pub delete_conn-IsQueue :
    (c : Ptr) (q : ConnQueue) (h : Heap) (xs : List Ptr)
    → IsQueue h q.head q.tail xs
    → has c xs ≡ true
    → (g : Heap) × (delete_conn c h ≡ some (tt, g))
      × IsQueue g q.head q.tail (remove c xs)
      × (g c ≡ none)
      × ((y : Ptr) → y ≢ c → about g y ≡ about h y)
      × ((y : Ptr) → has y (q.head ∷ q.tail ∷ xs) ≡ false → g y ≡ h y)
delete_conn-IsQueue c q h xs is i =
    let (m, d) = conn_at h c (exists h q.head xs q.tail c is.links (ground arith)) in
    let p_in = prev_in h c m.prev q.head xs q.tail is.links i (ground arith) in
    let n_in = next_in h c m.next q.head xs q.tail is.links i (ground arith) in
    let (a, e) = conn_at h m.prev (exists h q.head xs q.tail m.prev is.links (ground arith)) in
    let (b, f) = conn_at h m.next (exists h q.head xs q.tail m.next is.links (ground arith)) in
    let (ne, np, nn) = neighbours h c m q.head xs q.tail is.links is.apart i d in
    let (g, run, same) = delete_conn-run c h m a b d e f ne np nn in
    let (pt, nh) = ends_apart m.prev m.next q.head q.tail xs is.apart p_in n_in in
    (
      g,
      run,
      remove-IsQueue h g c m a b d e f same q.head q.tail xs is i pt nh,
      ground (arith, same c),
      remove-about h g c m a b d e f same,
      λ y o.
          let (yp, yn) = outside_of y m.prev m.next q.head q.tail xs o p_in n_in in
          remove-outside h g c m a b d e f same y (away c y xs i (ground arith)) yp yn,
    )
