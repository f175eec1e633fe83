-- ===== src/Memcached/Response/Bounds.antt =====
-- CREATE_RESP of src/ext/memcached/memcached.cpp keeps to the size of the client's buffer.
use kvproxy.Base.{
  ℕ, zero, suc, ◌+◌, ◌^◌, ◌≤◌, ◌<◌, ◌≡◌, refl, sym, ◌∙◌, inl, inr, Bool, true, false, List, [], ◌∷◌,
  ◌++◌, length, length-append, ◌==◌, arith, Bool-cases,
}
use kvproxy.Base.Word.{add32, slt32-ltb}
use kvproxy.Base.Text.{Text}
use kvproxy.Extension.{Memory, Resp, copy}
use kvproxy.Memcached.Response.{
  Reply, too_long, too_long_int, create_resp_loop, finish_resp, create_resp,
}

pub length-copy : (mem : Memory) (p n : ℕ) → length (copy mem p n) ≡ n
unfolding copy
length-copy mem p zero = refl
length-copy mem p (suc n) = omega (arith, length-copy mem (add32 p 1) n)

-- Each response, together with the client's buffer, is shorter than 2 ^ 31 bytes, so that no sum of
-- `int`s overflows.
abbrev pub AllShort : ℕ → List Resp → Type 0
AllShort size [] = Unit
AllShort size (r ∷ list) = (size + r.content_len < 2 ^ 31) × AllShort size list

-- What the loop keeps: the bytes fit, and the last one is as long as it says.
pub record IsWithin (size : ℕ) (o : Reply) : Type 0 where
  pub bytes : length o.bytes ≤ size
  pub last : length o.last ≡ o.end_len
  pub short : size + o.end_len < 2 ^ 31

-- Without an overflow, both tests are the same.
pub too_long-int :
    (size written n : ℕ)
    → written ≤ size
    → size + n < 2 ^ 31
    → too_long size written n ≡ too_long_int size written n
too_long-int size written n fits short =
    let sum : add32 written n ≡ written + n = omega arith in
    rw sum (sym (slt32-ltb size (written + n) (omega arith) (omega arith)))

append-fits :
    (size : ℕ) (first rest : Text) (n : ℕ)
    → length rest ≡ n
    → too_long size (length first) n ≡ false
    → n < 2 ^ 31
    → length first ≤ size
    → size < 2 ^ 31
    → length (first ++ rest) ≤ size
append-fits size first rest n e room short fits small =
    let sum : add32 (length first) n ≡ length first + n = omega arith in
    let all = length-append first rest in ground (arith, sum, all)

create_resp_loop-IsWithin :
    (mem : Memory) (size : ℕ) (list : List Resp) (o : Reply)
    → size < 2 ^ 31
    → AllShort size list
    → IsWithin size o
    → IsWithin size (create_resp_loop mem size list o).1
unfolding create_resp_loop
create_resp_loop-IsWithin mem size [] o small all v = v
create_resp_loop-IsWithin mem size (r ∷ list) o small (short, all) v =
    elim (Bool-cases (r.ext == b'e')) [
      | inl mark ↦
          rw (create_resp_loop, mark)
            (create_resp_loop-IsWithin mem size list
              (record o { last = copy mem r.content r.content_len; end_len = r.content_len }) small
              all
              (record {
                bytes = v.bytes;
                last = length-copy mem r.content r.content_len;
                short = short;
              }))
      | inr plain ↦ elim (Bool-cases (too_long size (length o.bytes) r.content_len)) [
        | inl long ↦ rw (create_resp_loop, plain, long) v
        | inr room ↦
            rw (create_resp_loop, plain, room)
              (create_resp_loop-IsWithin mem size list
                (record o { bytes = o.bytes ++ copy mem r.content r.content_len }) small all
                (record {
                  bytes =
                      append-fits size o.bytes (copy mem r.content r.content_len) r.content_len
                        (length-copy mem r.content r.content_len) room (omega (arith, short))
                        v.bytes small;
                  last = v.last;
                  short = v.short;
                }))
      ]
    ]

-- Whatever the responses, and also where it returns ERROR, `create_resp` writes no more bytes than the
-- client's buffer holds, if each response together with the buffer is shorter than 2 ^ 31 bytes: the
-- test for the closing response adds `int`s.
pub create_resp-bounded :
    (mem : Memory) (size : ℕ) (list : List Resp) (written : Text)
    → size < 2 ^ 31
    → AllShort size list
    → length written ≤ size
    → length (create_resp mem size list written).1 ≤ size
unfolding create_resp
create_resp-bounded mem size list written small all fits =
    finish (create_resp_loop mem size list (record { bytes = written; last = []; end_len = 0 })) (
      create_resp_loop-IsWithin mem size list (record { bytes = written; last = []; end_len = 0 })
        small all (record { bytes = fits; last = refl; short = omega (arith, small) }))
  where
    finish : (r : Bool × Reply) → IsWithin size r.1 → length (finish_resp size r).1 ≤ size
    finish (true, o) v = v.bytes
    finish (false, o) v = elim (Bool-cases (o.end_len == 0)) [
      | inl none_left ↦ rw none_left v.bytes
      | inr some_left ↦ elim (Bool-cases (too_long_int size (length o.bytes) o.end_len)) [
        | inl long ↦ rw (some_left, long) v.bytes
        | inr room ↦
            rw (some_left, room)
              (append-fits size o.bytes o.last o.end_len v.last
                (too_long-int size (length o.bytes) o.end_len v.bytes v.short ∙ room)
                (omega (arith, v.short)) v.bytes small)
      ]
    ]
