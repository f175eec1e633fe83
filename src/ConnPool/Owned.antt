-- ===== src/ConnPool/Owned.antt =====
-- No two slots of the pool of src/conn_pool.cpp share a connection.
use mathlib.Core.Bool.{false≢true}
use kvproxy.Base.{
  ℕ, ◌≡◌, ◌≢◌, refl, sym, ◌∙◌, ap, ◌⊎◌, inl, inr, true, false, [], ◌∷◌, arith, Bool-cases,
}
use kvproxy.Base.Order.{nat_ord, text_ord}
use kvproxy.Base.Map.{Map, at, same_key_iff}
use kvproxy.Base.Text.{Text}
use kvproxy.Base.Word.{slt32}
use kvproxy.System.{System}
use kvproxy.ConnPool.{
  ConnList, conn_at, set_conn, touch_conn, clear_ports, clear_conn, create_connection,
  get_connection, destory_connection,
}
use kvproxy.ConnPool.Slots.{same_slot, conn_at-set_conn, ports_of, ports_of-clear_conn}

-- An open connection stands in one slot only.
abbrev pub IsOwned : ConnList → Type 0
IsOwned m =
    (id : ℕ) (host : Text) (port j : ℕ) (h : Text) (q : ℕ)
    → slt32 0 (conn_at id host port m) ≡ true
    → conn_at id host port m ≡ conn_at j h q m
    → same_slot id host port j h q ≡ true

-- No slot holds the descriptor.
abbrev pub IsNew : ℕ → ConnList → Type 0
IsNew c m = (id : ℕ) (host : Text) (port : ℕ) → conn_at id host port m ≢ c

same_slot_trans :
    (i : ℕ) (g : Text) (n a : ℕ) (h : Text) (p b : ℕ) (h' : Text) (p' : ℕ)
    → same_slot i g n a h p ≡ true
    → same_slot i g n b h' p' ≡ true
    → same_slot a h p b h' p' ≡ true
same_slot_trans i g n a h p b h' p' e e' = ground (
  arith,
  same_key_iff i a,
  same_key_iff i b,
  same_key_iff a b,
  same_key_iff g h,
  same_key_iff g h',
  same_key_iff h h',
  same_key_iff n p,
  same_key_iff n p',
  same_key_iff p p',
)

pub set_conn-IsOwned :
    (id : ℕ) (host : Text) (port c : ℕ) (m : ConnList)
    → IsNew c m ⊎ (slt32 0 c ≡ false)
    → IsOwned m
    → IsOwned (set_conn id host port c m)
set_conn-IsOwned id host port c m fresh v a h p b h' p' is_open same =
    let left = conn_at-set_conn id host port c a h p m in
    let right = conn_at-set_conn id host port c b h' p' m in
    elim (Bool-cases (same_slot id host port a h p)) [
      | inl at_a ↦ elim (Bool-cases (same_slot id host port b h' p')) [
        | inl at_b ↦ same_slot_trans id host port a h p b h' p' at_a at_b
        | inr off_b ↦
            not_shared b h' p' (sym (rw off_b at right) ∙ sym same ∙ rw at_a at left)
              (rw at_a at left)
      ]
      | inr off_a ↦ elim (Bool-cases (same_slot id host port b h' p')) [
        | inl at_b ↦
            not_shared a h p (sym (rw off_a at left) ∙ same ∙ rw at_b at right)
              (same ∙ rw at_b at right)
        | inr off_b ↦
            let old_a = rw off_a at left in
            v a h p b h' p' (sym (ap (slt32 0) old_a) ∙ is_open)
              (sym old_a ∙ same ∙ rw off_b at right)
      ]
    ]
  where
    not_shared :
        (d : ℕ) (g : Text) (n : ℕ)
        → conn_at d g n m ≡ c
        → conn_at a h p (set_conn id host port c m) ≡ c
        → same_slot a h p b h' p' ≡ true
    not_shared d g n e f = elim fresh [
      | inl new ↦ absurd (new d g n e)
      | inr closed ↦ absurd (false≢true (sym closed ∙ sym (ap (slt32 0) f) ∙ is_open))
    ]

at-clear_ports_cases :
    (conn port : ℕ) (m : Map ℕ ℕ)
    → (at port 0 (clear_ports conn m) ≡ 0) ⊎ (at port 0 (clear_ports conn m) ≡ at port 0 m)
unfolding clear_ports
at-clear_ports_cases conn port [] = inl refl
at-clear_ports_cases conn port ((q, c) ∷ m) = ground (arith, at-clear_ports_cases conn port m)

conn_at-clear_conn :
    (conn id : ℕ) (host : Text) (port : ℕ) (m : ConnList)
    → (conn_at id host port (clear_conn conn m) ≡ 0)
      ⊎ (conn_at id host port (clear_conn conn m) ≡ conn_at id host port m)
conn_at-clear_conn conn id host port m =
    rw (ports_of-clear_conn conn id host m) (at-clear_ports_cases conn port (ports_of id host m))

clear_conn-IsOwned : (conn : ℕ) (m : ConnList) → IsOwned m → IsOwned (clear_conn conn m)
clear_conn-IsOwned conn m v a h p b h' p' is_open same =
    let left = conn_at-clear_conn conn a h p m in
    let right = conn_at-clear_conn conn b h' p' m in
    elim left [
      | inl gone ↦ absurd (false≢true (sym (ap (slt32 0) gone) ∙ is_open))
      | inr kept ↦ elim right [
        | inl gone ↦ absurd (false≢true (sym (ap (slt32 0) (same ∙ gone)) ∙ is_open))
        | inr kept' ↦ v a h p b h' p' (sym (ap (slt32 0) kept) ∙ is_open) (sym kept ∙ same ∙ kept')
      ]
    ]

touch_conn-IsOwned :
    (id : ℕ) (host : Text) (port : ℕ) (m : ConnList)
    → IsOwned m
    → IsOwned (touch_conn id host port m)
touch_conn-IsOwned id host port m v a h p b h' p' is_open same =
    let left = conn_at-touch_conn a h p in
    let right = conn_at-touch_conn b h' p' in
    v a h p b h' p' (sym (ap (slt32 0) left) ∙ is_open) (sym left ∙ same ∙ right)
  where
    conn_at-touch_conn :
        (j : ℕ) (g : Text) (q : ℕ) → conn_at j g q (touch_conn id host port m) ≡ conn_at j g q m
    conn_at-touch_conn j g q = ground (
      arith,
      conn_at-set_conn id host port (conn_at id host port m) j g q m,
      same_key_iff id j,
      same_key_iff host g,
      same_key_iff port q,
    )

create_connection-IsNew :
    (sys : System) (host : Text) (port : ℕ) (m : ConnList) (w : sys.World)
    → (slt32 (sys.socket w).0 0 ≡ false → IsNew (sys.socket w).0 m)
    → IsNew (create_connection sys host port w).0 m
      ⊎ (slt32 0 (create_connection sys host port w).0 ≡ false)
unfolding create_connection
create_connection-IsNew sys host port m w new = elim (Bool-cases (slt32 (sys.socket w).0 0)) [
  | inl bad ↦ inr (rw bad)
  | inr good ↦ elim (Bool-cases (sys.connect (sys.socket w).0 host port (sys.socket w).1).0) [
    | inl connected ↦ inl (rw (good, connected) (new good))
    | inr refused ↦ inr (rw (good, refused))
  ]
]

-- The world in which `getConnection` makes a new connection, if it does.
abbrev pub before_socket : (sys : System) → sys.World → sys.World
before_socket sys w = (sys.wrlock (sys.unlock (sys.rdlock w).1)).1

-- If no two slots share an open connection, then none do after `getConnection` or `destoryConnection`. If the
-- socket that `getConnection` asks for can be made, its number is not one that the pool holds: the system
-- gives the lowest number that is not open.
pub conn_list-IsOwned :
    (sys : System) (id : ℕ) (host : Text) (port conn : ℕ) (m : ConnList) (w : sys.World)
    → IsOwned m
    → (slt32 (sys.socket (before_socket sys w)).0 0 ≡ false
        → IsNew (sys.socket (before_socket sys w)).0 m)
    → IsOwned (get_connection sys id host port m w).1 × IsOwned (destory_connection sys conn m w).0
unfolding get_connection destory_connection
conn_list-IsOwned sys id host port conn m w v new = (got, destroyed)
  where
    got : IsOwned (get_connection sys id host port m w).1
    got = elim (Bool-cases (sys.rdlock w).0) [
      | inr busy ↦ rw busy v
      | inl read ↦ elim (Bool-cases (slt32 0 (conn_at id host port m))) [
        | inl there ↦ rw (read, there) (touch_conn-IsOwned id host port m v)
        | inr missing ↦ elim (Bool-cases (sys.wrlock (sys.unlock (sys.rdlock w).1)).0) [
          | inl write ↦
              rw (read, missing, write)
                (set_conn-IsOwned id host port _ m (create_connection-IsNew sys host port m _ new)
                  v)
          | inr busy ↦ rw (read, missing, busy) (touch_conn-IsOwned id host port m v)
        ]
      ]
    ]

    destroyed : IsOwned (destory_connection sys conn m w).0
    destroyed = elim (Bool-cases (slt32 0 conn)) [
      | inl is_open ↦ rw is_open (clear_conn-IsOwned conn m v)
      | inr closed ↦ rw closed v
    ]
