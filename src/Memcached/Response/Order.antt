-- ===== src/Memcached/Response/Order.antt =====
-- CREATE_RESP of src/ext/memcached/memcached.cpp puts the response that closes a pipeline last.
use mathlib.Core.List.{append-nil, append_assoc}
use kvproxy.Base.{
  ℕ, ◌+◌, ◌^◌, ◌≤◌, ◌<◌, ◌≡◌, refl, sym, ◌∙◌, ap, inl, inr, false, List, [], ◌∷◌, ◌++◌, length,
  length-append, ◌==◌, if◌then◌else◌, arith, Bool-cases,
}
use kvproxy.Base.Text.{Text}
use kvproxy.Extension.{Memory, success, Resp, copy}
use kvproxy.Memcached.Response.{too_long, too_long_int, create_resp_loop, finish_resp, create_resp}
use kvproxy.Memcached.Response.Bounds.{length-copy}

abbrev pub content_of : Memory → Resp → Text
content_of mem r = copy mem r.content r.content_len

-- The contents of the responses without the mark 'e', in order.
abbrev pub plain : Memory → List Resp → Text
plain mem [] = []
plain mem (r ∷ list) = if r.ext == b'e' then plain mem list else content_of mem r ++ plain mem list

-- The content of the last response that has the mark, or else what was there before.
abbrev pub closing : Memory → Text → List Resp → Text
closing mem last [] = last
closing mem last (r ∷ list) = closing mem (if r.ext == b'e' then content_of mem r else last) list

-- All bytes of the responses.
abbrev pub total : List Resp → ℕ
total [] = 0
total (r ∷ list) = r.content_len + total list

create_resp_loop-plain :
    (mem : Memory) (size : ℕ) (list : List Resp) (bytes last : Text) (end_len : ℕ)
    → size < 2 ^ 31
    → length bytes + total list ≤ size
    → length last ≡ end_len
    → create_resp_loop mem size list (record { bytes = bytes; last = last; end_len = end_len }) ≡ (
      false,
      record {
        bytes = bytes ++ plain mem list;
        last = closing mem last list;
        end_len = length (closing mem last list);
      },
    )
unfolding create_resp_loop
create_resp_loop-plain mem size [] bytes last end_len small fits e = rw (append-nil bytes, e) refl
create_resp_loop-plain mem size (r ∷ list) bytes last end_len small fits e =
    elim (Bool-cases (r.ext == b'e')) [
      | inl mark ↦
          rw (create_resp_loop, mark)
            (create_resp_loop-plain mem size list bytes (content_of mem r) r.content_len small
              (omega arith) (length-copy mem r.content r.content_len))
      | inr unmarked ↦
          let room : too_long size (length bytes) r.content_len ≡ false = ground arith in
          let more = length-append bytes (content_of mem r) in
          let len = length-copy mem r.content r.content_len in
          rw
            (
              create_resp_loop,
              unmarked,
              room,
              ← append_assoc bytes (content_of mem r) (plain mem list),
            )
            (create_resp_loop-plain mem size list (bytes ++ content_of mem r) last end_len small
              (omega arith) e)
    ]

length-plain :
    (mem : Memory) (list : List Resp) (last : Text)
    → length (plain mem list) + length (closing mem last list) ≤ total list + length last
length-plain mem [] last = omega arith
length-plain mem (r ∷ list) last = ground (
  arith,
  length-plain mem list last,
  length-plain mem list (content_of mem r),
  length-copy mem r.content r.content_len,
  length-append (content_of mem r) (plain mem list),
)

finish-closing :
    (size : ℕ) (bytes last : Text)
    → size < 2 ^ 31
    → length bytes + length last ≤ size
    → finish_resp size (false, record { bytes = bytes; last = last; end_len = length last })
      ≡ (success, bytes ++ last)
finish-closing size bytes [] small fits = ap (λ b. (success, b)) (sym (append-nil bytes))
finish-closing size bytes (c ∷ last) small fits =
    let room : too_long_int size (length bytes) (length (c ∷ last)) ≡ false = ground arith in
    let some_left : (length (c ∷ last) == 0) ≡ false = ground arith in rw (some_left, room)

-- Where all bytes fit into the client's buffer, which is smaller than 2 ^ 31, `create_resp` writes
-- the contents of all responses in their order, but for those that close a pipeline: of these it
-- writes the last one, at the end.
pub create_resp-in_order :
    (mem : Memory) (size : ℕ) (list : List Resp) (written : Text)
    → size < 2 ^ 31
    → length written + total list ≤ size
    → create_resp mem size list written
      ≡ (success, (written ++ plain mem list) ++ closing mem [] list)
unfolding create_resp
create_resp-in_order mem size list written small fits =
    ap (finish_resp size) (create_resp_loop-plain mem size list written [] 0 small fits refl)
    ∙ finish-closing size (written ++ plain mem list) (closing mem [] list) small
        (omega (arith, length-append written (plain mem list), length-plain mem list []))
