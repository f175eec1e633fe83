-- ===== src/Server/Heap.antt =====
-- The objects of class `Conn` at their addresses, and what the code of src/serv.cpp does with a
-- pointer to one.
use kvproxy.Base.{ℕ, Option, none, some, ◌==◌, if◌then◌else◌}

abbrev pub Ptr : Type 0
Ptr = ℕ

abbrev pub null : Ptr
null = 0

-- Class Conn. `none` is a variable that the constructor leaves as it is.
pub record Conn : Type 0 where
  pub fd : ℕ
  pub read_buf : Option Ptr
  pub write_buf : Option Ptr
  pub prev : Ptr
  pub next : Ptr
  pub owner : Option Ptr

abbrev pub Heap : Type 0
Heap = Ptr → Option Conn

unfoldable pub write : Ptr → Option Conn → Heap → Heap
write p c h a = if a == p then c else h a

-- A command returns the heap that it leaves; `none` is an access to an address that holds no Conn.
abbrev pub Cmd : Type 0 → Type 0
Cmd A = Heap → Option (A × Heap)

-- What follows a command, unless it failed.
abbrev pub go_on : {A B : Type 0} → (A → Cmd B) → Option (A × Heap) → Option (B × Heap)
go_on rest none = none
go_on rest (some (result, left)) = rest result left

infixl 5 ◌>>=◌ ◌>>◌
abbrev pub ◌>>=◌ : {A B : Type 0} → Cmd A → (A → Cmd B) → Cmd B
first >>= rest = λ h. go_on rest (first h)

-- The same, where the first result is not used.
abbrev pub ◌>>◌ : {A B : Type 0} → Cmd A → Cmd B → Cmd B
first >> rest = first >>= λ _. rest

abbrev pub done : {A : Type 0} → A → Cmd A
done a h = some (a, h)

-- Conn::Conn(fd), at the address that `new` returned.
unfoldable pub new_conn : Ptr → ℕ → Cmd Ptr
new_conn p fd h = some (
  p,
  write p
      (some (record {
        fd = fd;
        read_buf = none;
        write_buf = none;
        prev = null;
        next = null;
        owner = none;
      }))
      h,
)

-- `*p`
unfoldable pub load : Ptr → Cmd Conn
load p h = elim (h p) [ none ↦ none | some c ↦ some (c, h) ]

unfoldable pub store : Ptr → Conn → Cmd (Unit {0})
store p c h = some (tt, write p (some c) h)

-- `p->m_next = q`, `p->m_prev = q` and `p->m_thread = t`
unfoldable pub set_next : Ptr → Ptr → Cmd (Unit {0})
unfolding load store
set_next p q = do c ← load p; store p (record c { next = q })

unfoldable pub set_prev : Ptr → Ptr → Cmd (Unit {0})
unfolding load store
set_prev p q = do c ← load p; store p (record c { prev = q })

unfoldable pub set_owner : Ptr → Ptr → Cmd (Unit {0})
unfolding load store
set_owner p t = do c ← load p; store p (record c { owner = some t })

-- `delete p`
unfoldable pub free : Ptr → Cmd (Unit {0})
unfolding load
free p = load p >> λ h. some (tt, write p none h)
