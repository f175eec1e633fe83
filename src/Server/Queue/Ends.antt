-- ===== src/Server/Queue/Ends.antt =====
-- Both ends of a queue of src/serv.cpp: its constructor and its destructor.
use kvproxy.Base.{
  ℕ, suc, ◌+◌, ◌≡◌, ◌≢◌, refl, ◌∙◌, true, false, none, some, List, [], ◌∷◌, arith, ◌==◌,
  if◌then◌else◌, length,
}
use kvproxy.Server.Heap.{Ptr, null, Conn, Heap, write, new_conn, ◌>>=◌}
use kvproxy.Server.Queue.{ConnQueue, new_queue, delete_all}
use kvproxy.Server.Queue.Links.{
  has, next_of, prev_of, Dll, Distinct, Dll-frame, exists, conn_at, load-run, set_next-run,
  set_prev-run, free-run,
}
use kvproxy.Server.Queue.Life.{
  Change, changes, Sockets, nodes, after_all, all_allowed, Holds, changes-Holds,
}

differ : (y a b : Ptr) (xs : List Ptr) → has y (b ∷ xs) ≡ true → has a (b ∷ xs) ≡ false → y ≢ a
differ y a b [] i o = ground arith
differ y a b (x ∷ xs) i o = ground (arith, differ y a b xs)

elsewhere : (a y : Ptr) (h : Heap) → y ≢ a → write a none h y ≡ h y
unfolding write
elsewhere a y h n = ground arith

next-elsewhere : (a y : Ptr) (h : Heap) → y ≢ a → next_of (write a none h) y ≡ next_of h y
next-elsewhere a y h n = rw (elsewhere a y h n, next_of) refl

prev-elsewhere : (a y : Ptr) (h : Heap) → y ≢ a → prev_of (write a none h) y ≡ prev_of h y
prev-elsewhere a y h n = rw (elsewhere a y h n, prev_of) refl

-- The destructor's loop at a node, and behind the last one.
delete_all-node :
    (n p : ℕ) (c : Conn) (h : Heap)
    → h p ≡ some c
    → p ≢ null
    → delete_all (suc n) p h ≡ delete_all n c.next (write p none h)
unfolding delete_all
delete_all-node n p c h e nz =
    let z : (p == null) ≡ false = ground arith in rw (z, load-run p c h e, free-run p c h e) refl

delete_all-null : (n : ℕ) (h : Heap) → delete_all (suc n) null h ≡ some (tt, h)
unfolding delete_all
delete_all-null n h = refl

-- The loop from a node on, with the rounds that it needs.
delete_all-run :
    (h : Heap) (a : Ptr) (xs : List Ptr) (b : Ptr)
    → Dll h a xs b
    → next_of h b ≡ some null
    → Distinct (a ∷ b ∷ xs)
    → has null (a ∷ b ∷ xs) ≡ false
    → (g : Heap) × (delete_all (suc (suc (suc (length xs)))) a h ≡ some (tt, g))
      × ((y : Ptr) → g y ≡ (if has y (a ∷ b ∷ xs) then none else h y))
unfolding write
delete_all-run h a [] b d e u z =
    let (c, f) = conn_at h a (exists h a [] b a d (ground arith)) in
    let (k, l) = conn_at h b (exists h a [] b b d (ground arith)) in
    let cb : c.next ≡ b = ground arith in
    let kn : k.next ≡ null = ground arith in
    (
      write b none (write a none h),
      delete_all-node 2 a c h f (ground arith)
          ∙ rw cb (
              delete_all-node 1 b k (write a none h) (ground arith) (ground arith)
              ∙ rw kn (delete_all-null 0 (write b none (write a none h)))),
      λ y. ground arith,
    )
delete_all-run h a (x ∷ xs) b d e u z =
    let (c, f) = conn_at h a (exists h a (x ∷ xs) b a d (ground arith)) in
    let cx : c.next ≡ x = ground arith in
    let d' =
      Dll-frame h (write a none h) x xs b d.2
        (λ y i. next-elsewhere a y h (differ y a x xs i (ground arith)))
        (λ y i. prev-elsewhere a y h (differ y a b xs i (ground arith))) in
    let e' = next-elsewhere a b h (ground arith) ∙ e in
    let (g, run, gone) =
      delete_all-run (write a none h) x xs b d' e' (ground arith) (ground arith) in
    (
      g,
      delete_all-node (suc (suc (suc (length xs)))) a c h f (ground arith) ∙ rw cx run,
      λ y. ground (arith, gone y),
    )

abbrev blank : Conn
blank = record { fd = 0; read_buf = none; write_buf = none; prev = null; next = null; owner = none }

ends-Holds :
    (g : Heap) (thread head tail : Ptr)
    → ((y : Ptr)
        → g y ≡ (
            if y == tail
            then some (record blank { prev = head })
            else if y == head
            then some (record blank { next = tail })
            else none))
    → head ≢ tail
    → head ≢ null
    → tail ≢ null
    → Holds g thread (record { head = head; tail = tail }) []
ends-Holds g thread head tail same n hz tz = record {
  is_queue = record {
    links = (ground (arith, same head), ground (arith, same tail));
    apart = ground arith;
    before = ground (arith, same head);
    behind = ground (arith, same tail);
    not_null = ground arith;
  };
  only = λ y o. ground (arith, same y);
  sockets = tt;
}

-- The constructor on an empty heap.
new_queue-Holds :
    (thread head tail : Ptr)
    → head ≢ tail
    → head ≢ null
    → tail ≢ null
    → (g : Heap) × (new_queue head tail (λ _. none) ≡ some (record { head = head; tail = tail }, g))
      × Holds g thread (record { head = head; tail = tail }) []
unfolding new_queue new_conn write
new_queue-Holds thread head tail n hz tz =
    let h0 : Heap = write tail (some blank) (write head (some blank) (λ _. none)) in
    let h1 : Heap = write tail (some blank) h0 in
    let h2 : Heap = write head (some blank) h1 in
    let h3 : Heap = write head (some (record blank { next = tail })) h2 in
    (
      write tail (some (record blank { prev = head })) h3,
      rw
          (
            set_next-run tail blank h0 (ground arith) null,
            set_prev-run head blank h1 (ground arith) null,
            set_next-run head blank h2 (ground arith) tail,
            set_prev-run tail blank h3 (ground arith) head,
          )
          refl,
      ends-Holds _ thread head tail (λ y. ground arith) n hz tz,
    )

-- From an empty heap, with two addresses for the ends, the constructor and then any changes that a
-- program may ask for, whether connections open or close, run to their end: the nodes are exactly
-- those of the connections that are open, the one that was opened last in front, each with its socket
-- and its thread, linked both ways.
pub new_queue-changes :
    (thread head tail : Ptr) (cs : List Change)
    → head ≢ tail
    → head ≢ null
    → tail ≢ null
    → all_allowed cs (record { head = head; tail = tail }) [] ≡ true
    → (g : Heap) × ((new_queue head tail >>= λ q. changes thread q cs) (λ _. none) ≡ some (tt, g))
      × Holds g thread (record { head = head; tail = tail }) (after_all cs [])
new_queue-changes thread head tail cs n hz tz ok =
    let (h, made, is) = new_queue-Holds thread head tail n hz tz in
    let (g, run, end) = changes-Holds thread _ cs h [] is ok in (g, rw made run, end)

-- The destructor's loop, with one round for each node and one more, ends on every queue whose heap
-- holds nothing else, and leaves no node.
pub delete_all-Holds :
    (thread : Ptr) (q : ConnQueue) (h : Heap) (xs : Sockets)
    → Holds h thread q xs
    → (g : Heap) × (delete_all (length (nodes xs) + 3) q.head h ≡ some (tt, g))
      × ((y : Ptr) → g y ≡ none)
delete_all-Holds thread q h xs is =
    let (g, run, gone) =
      delete_all-run h q.head (nodes xs) q.tail is.is_queue.links is.is_queue.behind
        is.is_queue.apart is.is_queue.not_null in
    let rounds : length (nodes xs) + 3 ≡ suc (suc (suc (length (nodes xs)))) = omega arith in
    (g, rw rounds run, λ y. ground (arith, gone y, is.only y))
