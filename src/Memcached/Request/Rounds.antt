-- ===== src/Memcached/Request/Rounds.antt =====
-- What one round of `parse_req` in src/ext/memcached/memcached.cpp does, and what the loop leaves.
use kvproxy.Base.{◌≡◌, refl, ◌⊎◌, inl, inr, true, false, Bool-cases}
use kvproxy.Base.Word.{add32, slt32}
use kvproxy.Extension.{ExtRet, success}
use kvproxy.Memcached.Opcode.{Flags, Command, accepted, ignored, refused, command}
use kvproxy.Memcached.Header.{Header, ReadRet, invalid, incomplete, complete}
use kvproxy.Memcached.Request.{
  Parse, Input, header_len, Round, return, continue, push_req, take_req, dispatch, on_read,
  read_header, parse_round,
}

-- A round that takes no request leaves the position and the list. A round that takes one pushes it
-- with the flags of its command, and goes on exactly when the command wants another to follow.
abbrev pub After : Input → Parse → Round → Type 0
After i s (return ret s') =
    ((s'.position ≡ s.position) × (s'.req_data ≡ s.req_data))
    ⊎ ((h : Header) × (f : Flags) × (ret ≡ success)
        × (s' ≡ push_req i h f s)
        × (command h.opcode ≡ accepted f)
        × (f.more ≡ false))
After i s (continue s') =
    (h : Header) × (f : Flags) × (s' ≡ push_req i h f s)
    × (command h.opcode ≡ accepted f)
    × (f.more ≡ true)

take_req-After :
    (i : Input) (h : Header) (f : Flags) (s : Parse)
    → command h.opcode ≡ accepted f
    → After i s (take_req i h f s)
unfolding take_req
take_req-After i h f s e = elim (Bool-cases (slt32 i.size (add32 (header_len i) h.bodylen))) [
  | inl short ↦ rw short (inl (refl, refl))
  | inr fits ↦ rw fits (elim (Bool-cases f.more) [
    | inl m ↦ rw m (h, f, refl, e, m)
    | inr m ↦ rw m (inr (h, f, refl, refl, e, m))
  ])
]

dispatch-After :
    (i : Input) (c : Command) (h : Header) (s : Parse)
    → command h.opcode ≡ c
    → After i s (dispatch i c h s)
unfolding dispatch
dispatch-After i (accepted f) h s e = take_req-After i h f s e
dispatch-After i ignored h s e = inl (refl, refl)
dispatch-After i refused h s e = inl (refl, refl)

on_read-After : (i : Input) (r : ReadRet × Header) (s : Parse) → After i s (on_read i r s)
unfolding on_read
on_read-After i (invalid, h) s = inl (refl, refl)
on_read-After i (incomplete, h) s = inl (refl, refl)
on_read-After i (complete, h) s = dispatch-After i (command h.opcode) h s refl

pub parse_round-After : (i : Input) (s : Parse) → After i s (parse_round i s)
unfolding parse_round
parse_round-After i s = on_read-After i (read_header i s) s

pub Round-cases :
    (r : Round)
    → ((ret : ExtRet) × (s : Parse) × (r ≡ return ret s)) ⊎ ((s : Parse) × (r ≡ continue s))
Round-cases (return ret s) = inl (ret, s, refl)
Round-cases (continue s) = inr (s, refl)
