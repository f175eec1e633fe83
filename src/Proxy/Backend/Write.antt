-- ===== src/Proxy/Backend/Write.antt =====
-- `writeToBackend` of src/kvproxy.cpp on a connection that takes bytes.
use kvproxy.Base.{
  ℕ, zero, suc, ◌+◌, ◌-◌, ◌≤◌, ◌<◌, ◌^◌, ◌≡◌, ap, inl, inr, true, Option, some, [], ◌∷◌, length,
  drop, ltb, arith, Bool-cases, ltb→lt,
}
use kvproxy.Base.Word.{add32, slt32, slt32-ltb}
use kvproxy.Base.Text.{Text}
use kvproxy.System.{System}
use kvproxy.Proxy.Backend.{Backend, write_loop, write_to_backend}

-- `send` takes at least one byte, and no more than it is given.
abbrev pub IsTaking : System → Type 0
IsTaking sys =
    (fd : ℕ) (content : Text) (w : sys.World)
    → 0 < length content
    → (0 < (sys.send fd content w).0.ret_len) × ((sys.send fd content w).0.ret_len ≤ length content)

length-drop : (n : ℕ) (t : Text) → length (drop n t) ≡ length t - n
length-drop zero t = omega arith
length-drop (suc n) [] = omega arith
length-drop (suc n) (c ∷ t) = omega (arith, length-drop n t)

module _ (sys : System) (thread a : ℕ) (content : Text) (conn_fd : ℕ) where
  abbrev Ends : ℕ → ℕ → Backend sys → Type 0
  Ends fuel send_len s =
      (w : sys.World) × (write_loop sys thread fuel a content send_len conn_fd s
        ≡ some (length content, conn_fd, record s { world = w }))

  write_loop-Ends :
      (fuel send_len : ℕ) (s : Backend sys)
      → IsTaking sys
      → length content < 2 ^ 31
      → send_len < length content
      → length content ≤ fuel + send_len
      → Ends fuel send_len s
  unfolding write_loop
  write_loop-Ends zero send_len s taking small here enough = absurd (omega arith)
  write_loop-Ends (suc fuel) send_len s taking small here enough =
      let part = length-drop send_len content in
      let (some_byte, no_more) = taking conn_fd (drop send_len content) s.world (omega arith) in
      let ret_len = (sys.send conn_fd (drop send_len content) s.world).0.ret_len in
      let world = (sys.send conn_fd (drop send_len content) s.world).1 in
      let sum : add32 send_len ret_len ≡ send_len + ret_len = omega arith in
      let next = add32 send_len ret_len in
      let test : slt32 next (length content) ≡ ltb next (length content) =
        slt32-ltb next (length content) (omega arith) small in
      let positive : slt32 0 ret_len ≡ true = ground arith in
      elim (Bool-cases (ltb next (length content))) [
        | inl more ↦
            let (w, run) =
              write_loop-Ends fuel next (record s { world = world }) taking small
                (ltb→lt next (length content) more) (omega arith) in
            (w, rw (positive, test, more) run)
        | inr done ↦
            let all : next ≡ length content = ground arith in
            (
              world,
              rw (positive, test, done)
                  (ap {B = Option (ℕ × ℕ × Backend sys)}
                    (λ n. some (n, conn_fd, record s { world = world })) all),
            )
      ]

-- On a connection that takes at least one byte of what it is given, and no more, all bytes (at
-- least one and fewer than 2 ^ 31) are written in at most as many rounds as there are bytes, on
-- the same connection; the pool, the hosts and the buffers stay as they are.
pub write_to_backend-ends :
    (sys : System) (thread a : ℕ) (content : Text) (conn_fd : ℕ) (s : Backend sys)
    → IsTaking sys
    → 0 < length content
    → length content < 2 ^ 31
    → (w : sys.World) × (write_to_backend sys thread (length content) a content conn_fd s
        ≡ some (length content, conn_fd, record s { world = w }))
unfolding write_to_backend
write_to_backend-ends sys thread a content conn_fd s taking full small =
    write_loop-Ends sys thread a content conn_fd (length content) 0 s taking small full
      (omega arith)
