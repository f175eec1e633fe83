-- ===== src/Memcached/Request/Written.antt =====
-- The writers of src/ext/memcached/memcached.cpp go on behind the bytes that the buffer holds.
use mathlib.Core.List.{append-nil, append_assoc}
use kvproxy.Base.{◌≡◌, refl, ◌∙◌, ap, inl, inr, List, [], ◌∷◌, ◌++◌, ◌==◌, Bool-cases}
use kvproxy.Base.Text.{Text}
use kvproxy.Extension.{Memory, success, Req, copy}
use kvproxy.Memcached.Request.{Output, create_req_loop, create_req}

create_req_loop-written :
    (mem : Memory) (reqs : List Req) (first bytes last : Text)
    → create_req_loop mem reqs (record { bytes = first ++ bytes; last = last }) ≡ record {
      bytes = first ++ (create_req_loop mem reqs (record { bytes = bytes; last = last })).bytes;
      last = (create_req_loop mem reqs (record { bytes = bytes; last = last })).last;
    }
unfolding create_req_loop
create_req_loop-written mem [] first bytes last = refl
create_req_loop-written mem (r ∷ reqs) first bytes last = elim (Bool-cases (r.ext == b'e')) [
  | inl mark ↦
      rw (create_req_loop, mark)
        (create_req_loop-written mem reqs first bytes (copy mem r.content r.content_len))
  | inr plain ↦
      rw (create_req_loop, plain, append_assoc first bytes (copy mem r.content r.content_len))
        (create_req_loop-written mem reqs first (bytes ++ copy mem r.content r.content_len) last)
]

pub create_req-written :
    (mem : Memory) (reqs : List Req) (first : Text)
    → create_req mem reqs first ≡ (success, first ++ (create_req mem reqs []).1)
unfolding create_req
create_req-written mem reqs first =
    let o : Output = create_req_loop mem reqs (record { bytes = []; last = [] }) in
    let moved = rw (append-nil first) at (create_req_loop-written mem reqs first [] []) in
    ap (λ (q : Output). (success, q.bytes ++ q.last)) moved
    ∙ ap (λ b. (success, b)) (append_assoc first o.bytes o.last)
