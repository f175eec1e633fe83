-- ===== src/Server/Queue/Links.antt =====
-- What the lists of class ConnQueue of src/serv.cpp look like in a heap, and what the commands on
-- one node do.
use mathlib.Core.Bool.{◌||◌}
use kvproxy.Base.{
  ℕ, ◌≡◌, ◌≢◌, refl, inl, inr, Bool, true, false, Option, none, some, List, [], ◌∷◌, arith, ◌==◌,
  Option-cases,
}
use kvproxy.Server.Heap.{
  Ptr, null, Conn, Heap, write, load, set_next, set_prev, set_owner, free, store,
}

abbrev pub has : Ptr → List Ptr → Bool
has p [] = false
has p (x ∷ xs) = (p == x) || has p xs

abbrev pub next_of : Heap → Ptr → Option Ptr
next_of h p = elim (h p) [ none ↦ none | some c ↦ some c.next ]

abbrev pub prev_of : Heap → Ptr → Option Ptr
prev_of h p = elim (h p) [ none ↦ none | some c ↦ some c.prev ]

-- What a node says of its connection: the socket, the buffers and the thread.
abbrev pub about : Heap → Ptr → Option (ℕ × Option Ptr × Option Ptr × Option Ptr)
about h p = elim (h p) [ none ↦ none | some c ↦ some (c.fd, c.read_buf, c.write_buf, c.owner) ]

-- From node `a` the two links lead through `xs` to `b` and back.
abbrev pub Dll : Heap → Ptr → List Ptr → Ptr → Type 0
Dll h a [] b = (next_of h a ≡ some b) × (prev_of h b ≡ some a)
Dll h a (x ∷ xs) b = (next_of h a ≡ some x) × (prev_of h x ≡ some a) × Dll h x xs b

abbrev pub Distinct : List Ptr → Type 0
Distinct [] = Unit
Distinct (x ∷ xs) = (has x xs ≡ false) × Distinct xs

pub Dll-frame :
    (h g : Heap) (a : Ptr) (xs : List Ptr) (b : Ptr)
    → Dll h a xs b
    → ((y : Ptr) → has y (a ∷ xs) ≡ true → next_of g y ≡ next_of h y)
    → ((y : Ptr) → has y (b ∷ xs) ≡ true → prev_of g y ≡ prev_of h y)
    → Dll g a xs b
Dll-frame h g a [] b d n p = ground (arith, n a, p b)
Dll-frame h g a (x ∷ xs) b d n p = (
  ground (arith, n a),
  ground (arith, p x),
  Dll-frame h g x xs b d.2 (λ y i. n y (ground arith)) (λ y i. p y (ground arith)),
)

module _ (p : Ptr) (c : Conn) (h : Heap) (e : h p ≡ some c) where
  pub load-run : load p h ≡ some (c, h)
  unfolding load
  load-run = rw (e, load) refl

  pub set_next-run :
      (q : Ptr) → set_next p q h ≡ some (tt, write p (some (record c { next = q })) h)
  unfolding set_next load store
  set_next-run q = ground arith

  pub set_prev-run :
      (q : Ptr) → set_prev p q h ≡ some (tt, write p (some (record c { prev = q })) h)
  unfolding set_prev load store
  set_prev-run q = ground arith

  pub set_owner-run :
      (t : Ptr) → set_owner p t h ≡ some (tt, write p (some (record c { owner = some t })) h)
  unfolding set_owner load store
  set_owner-run t = ground arith

  pub free-run : free p h ≡ some (tt, write p none h)
  unfolding free load
  free-run = ground arith

-- The list of connections that a queue holds in a heap: the nodes are distinct, linked both ways
-- between the two ends, and behind the ends there is nothing.
pub record IsQueue (h : Heap) (head tail : Ptr) (xs : List Ptr) : Type 0 where
  pub links : Dll h head xs tail
  pub apart : Distinct (head ∷ tail ∷ xs)
  pub before : prev_of h head ≡ some null
  pub behind : next_of h tail ≡ some null
  pub not_null : has null (head ∷ tail ∷ xs) ≡ false

-- Each node of a list is a Conn.
pub exists :
    (h : Heap) (a : Ptr) (xs : List Ptr) (b y : Ptr)
    → Dll h a xs b
    → has y (b ∷ a ∷ xs) ≡ true
    → h y ≢ none
exists h a [] b y d i = ground arith
exists h a (x ∷ xs) b y d i = ground (arith, exists h x xs b y d.2)

pub conn_at : (h : Heap) (y : Ptr) → h y ≢ none → (c : Conn) × (h y ≡ some c)
conn_at h y n = elim (Option-cases (h y)) [ inl e ↦ absurd (n e) | inr found ↦ found ]
