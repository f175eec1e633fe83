-- ===== src/Memcached/Request/Progress.antt =====
-- When the loop of `parse_req` in src/ext/memcached/memcached.cpp ends, and when it does not.
use kvproxy.Base.{
  ℕ, zero, suc, ◌+◌, ◌-◌, ◌^◌, ◌≤◌, ◌<◌, ◌≡◌, ◌≢◌, refl, sym, ◌∙◌, subst, inl, inr, Bool, true,
  false, none, some, arith, Bool-cases, ltb→lt,
}
use kvproxy.Base.Word.{add32, sub32, slt32, slt32-ltb, left_iff, add32-eq-add}
use kvproxy.Extension.{Memory, ExtRet}
use kvproxy.Memcached.Opcode.{
  Flags, reads, Command, accepted, ignored, refused, command, cmd_getkq, get_opcode,
}
use kvproxy.Memcached.Header.{
  Header, ReadRet, invalid, incomplete, complete, word32, binary_req, binary_header,
  try_read_request_binary, try_read_request_text, is_binary_protocol,
}
use kvproxy.Memcached.Request.{
  Parse, Input, header_len, continue, push_req, take_req, dispatch, on_read, Statics, parse_req,
  same_bool, read_header, parse_round, parse_loop,
}
use kvproxy.Memcached.Request.Rounds.{Round-cases}

-- What a round has read when it goes on.
abbrev Continued : Input → ReadRet × Header → Parse → Parse → Type 0
Continued i r s t =
    (h : Header) × (f : Flags) × (r ≡ (complete, h))
    × (h.opcode ≡ cmd_getkq)
    × (slt32 i.size (add32 (header_len i) h.bodylen) ≡ false)
    × (t ≡ push_req i h f s)

command-more : (op : ℕ) (f : Flags) → command op ≡ accepted f → f.more ≡ true → op ≡ cmd_getkq
unfolding command
command-more op f e m = ground arith

take_req-continue :
    (i : Input) (h : Header) (f : Flags) (s t : Parse)
    → take_req i h f s ≡ continue t
    → (f.more ≡ true)
      × (slt32 i.size (add32 (header_len i) h.bodylen) ≡ false)
      × (t ≡ push_req i h f s)
unfolding take_req
take_req-continue i h f s t e = elim (Bool-cases (slt32 i.size (add32 (header_len i) h.bodylen))) [
  | inl short ↦ absurd (ground (arith, short, e))
  | inr fits ↦ elim (Bool-cases f.more) [
    | inl m ↦ (m, fits, ground arith)
    | inr m ↦ absurd (ground arith)
  ]
]

dispatch-continue :
    (i : Input) (c : Command) (h : Header) (s t : Parse)
    → command h.opcode ≡ c
    → dispatch i c h s ≡ continue t
    → Continued i (complete, h) s t
unfolding dispatch
dispatch-continue i (accepted f) h s t c e =
    let (m, fits, q) = take_req-continue i h f s t e in
    (h, f, refl, command-more h.opcode f c m, fits, q)
dispatch-continue i ignored h s t c e = absurd (cc)
dispatch-continue i refused h s t c e = absurd (cc)

on_read-continue :
    (i : Input) (r : ReadRet × Header) (s t : Parse)
    → on_read i r s ≡ continue t
    → Continued i r s t
unfolding on_read
on_read-continue i (invalid, h) s t e = absurd (cc)
on_read-continue i (incomplete, h) s t e = absurd (cc)
on_read-continue i (complete, h) s t e = dispatch-continue i (command h.opcode) h s t refl e

get_opcode-ne-getkq : (mem : Memory) (p : ℕ) → get_opcode mem p ≢ cmd_getkq
unfolding get_opcode
get_opcode-ne-getkq mem p e = ground arith

-- Where the first two bytes of a quiet get's header stand in the buffer, with room for the header, it
-- announces a body that an `int` can count, header included.
abbrev pub BodiesFit : Memory → ℕ → Type 0
BodiesFit mem size =
    (p : ℕ)
    → p + 24 ≤ size
    → mem p ≡ binary_req
    → mem (add32 p 1) ≡ cmd_getkq
    → word32 mem (add32 p 8) < 2 ^ 31 - 24

record Fits (i : Input) (s : Parse) : Type 0 where
  size : i.size < 2 ^ 31
  position : s.position < i.size + 2 ^ 31

-- A text request is never followed by another in one call; a binary one announces its body.
read_header-continue :
    (i : Input) (s : Parse) (h : Header)
    → BodiesFit i.mem i.size
    → Fits i s
    → slt32 0 (sub32 i.size s.position) ≡ true
    → read_header i s ≡ (complete, h)
    → h.opcode ≡ cmd_getkq
    → (i.is_binary ≡ true) × (h.bodylen < 2 ^ 31 - 24)
unfolding read_header try_read_request_binary try_read_request_text binary_header
read_header-continue i s h fit v go r o = elim (Bool-cases i.is_binary) [
  | inl b ↦ (b, ground (arith, left_iff i.size s.position, fit s.position))
  | inr b ↦ absurd (ground (arith, get_opcode-ne-getkq i.mem s.position))
]

-- A round that goes on moves the position by a header at least.
push_req-moves :
    (i : Input) (h : Header) (f : Flags) (s : Parse)
    → Fits i s
    → i.is_binary ≡ true
    → h.bodylen < 2 ^ 31 - 24
    → slt32 0 (sub32 i.size s.position) ≡ true
    → slt32 i.size (add32 (header_len i) h.bodylen) ≡ false
    → Fits i (push_req i h f s)
      × (s.position + 24 ≤ (push_req i h f s).position)
      × (s.position < i.size)
unfolding push_req
push_req-moves i h f s v b small go fits =
    let here : s.position < i.size =
      ltb→lt s.position i.size (sym (left_iff i.size s.position v.size v.position) ∙ go) in
    let room : 24 + h.bodylen ≤ i.size =
      ground (arith, slt32-ltb i.size (24 + h.bodylen), add32-eq-add 24 h.bodylen) in
    rw b (record { size = v.size; position = omega arith }, omega arith, here)

parse_round-moves :
    (i : Input) (s t : Parse)
    → BodiesFit i.mem i.size
    → Fits i s
    → slt32 0 (sub32 i.size s.position) ≡ true
    → parse_round i s ≡ continue t
    → Fits i t × (s.position + 24 ≤ t.position) × (s.position < i.size)
unfolding parse_round
parse_round-moves i s t fit v go q =
    let (h, f, r, o, fits, e) = on_read-continue i (read_header i s) s t q in
    let (b, small) = read_header-continue i s h fit v go r o in
    let moves = push_req-moves i h f s v b small go fits in
    subst (λ u. Fits i u × (s.position + 24 ≤ u.position) × (s.position < i.size)) (sym e) moves

parse_loop-ends :
    (fuel : ℕ) (i : Input) (b : Bool) (s : Parse)
    → BodiesFit i.mem i.size
    → Fits i s
    → i.size - s.position < fuel
    → (r : ExtRet × Parse) × (parse_loop fuel i b s ≡ some r)
unfolding parse_loop
parse_loop-ends zero i b s fit v enough = absurd (omega arith)
parse_loop-ends (suc fuel) i b s fit v enough =
    elim (Bool-cases (slt32 0 (sub32 i.size s.position))) [
      | inr done ↦ rw (done, parse_loop) (_, refl)
      | inl go ↦ elim (Round-cases (parse_round i s)) [
        | inl (ret, t, q) ↦ rw (go, q, parse_loop) (_, refl)
        | inr (t, q) ↦
            let (v', far, here) = parse_round-moves i s t fit v go q in
            rw (go, q, parse_loop) (parse_loop-ends fuel i true t fit v' (omega arith))
      ]
    ]

-- `parse_req` returns: with one round more than there are bytes left it has an answer, whatever was
-- received, if the buffer is shorter than 2 ^ 31 bytes and, wherever the first two bytes of a quiet get's header
-- stand in it with room for a header, the body that is announced there has less than 2 ^ 31 - 24 bytes.
pub parse_req-ends :
    (t : Statics) (mem : Memory) (size : ℕ) (s : Parse)
    → BodiesFit mem size
    → size < 2 ^ 31
    → s.position ≤ size
    → (r : ExtRet × Parse) × (parse_req (size - s.position + 1) t mem size s ≡ some r)
unfolding parse_req
parse_req-ends t mem size s fit small here =
    elim (Bool-cases (same_bool t.use_binary (is_binary_protocol mem))) [
      | inl same ↦ rw same (
          parse_loop-ends _ _ false s fit (record { size = small; position = omega arith })
            (omega arith))
      | inr other ↦ rw other (_, refl)
    ]

-- The header of a quiet get that announces a body of 2 ^ 32 - 24 bytes, which is -24 as an `int`.
pub record Spins (i : Input) (p : ℕ) : Type 0 where
  pub binary : i.is_binary ≡ true
  pub size : i.size < 2 ^ 31
  pub room : p + 24 ≤ i.size
  pub magic : i.mem p ≡ binary_req
  pub opcode : i.mem (add32 p 1) ≡ cmd_getkq
  pub body : word32 i.mem (add32 p 8) ≡ 2 ^ 32 - 24

spin_read :
    (i : Input) (s : Parse)
    → Spins i s.position
    → read_header i s ≡ (complete, binary_header i.mem s.position)
unfolding read_header try_read_request_binary
spin_read i s v = ground arith

spin_take :
    (i : Input) (s : Parse) (h : Header)
    → i.is_binary ≡ true
    → i.size < 2 ^ 31
    → h.bodylen ≡ 2 ^ 32 - 24
    → take_req i h (record reads { more = true }) s
      ≡ continue (push_req i h (record reads { more = true }) s)
unfolding take_req
spin_take i s h b size body = ground arith

command-getkq : (op : ℕ) → op ≡ cmd_getkq → command op ≡ accepted (record reads { more = true })
unfolding command
command-getkq op e = rw e

spin_round :
    (i : Input) (s : Parse)
    → Spins i s.position
    → (t : Parse) × (parse_round i s ≡ continue t) × (t.position ≡ s.position)
unfolding parse_round on_read dispatch push_req
spin_round i s v =
    let h = binary_header i.mem s.position in
    (
      push_req i h (record reads { more = true }) s,
      rw (spin_read i s v, command-getkq h.opcode (unfold binary_header in v.opcode))
          (spin_take i s h v.binary v.size (unfold binary_header in v.body)),
      rw v.binary (unfold binary_header in ground arith),
    )

-- At such a header the loop never ends: each round takes the same request again.
pub parse_loop-Spins :
    (fuel : ℕ) (i : Input) (b : Bool) (s : Parse)
    → Spins i s.position
    → parse_loop fuel i b s ≡ none
unfolding parse_loop
parse_loop-Spins zero i b s v = refl
parse_loop-Spins (suc fuel) i b s v =
    let go : slt32 0 (sub32 i.size s.position) ≡ true = ground (arith, v) in
    let (t, q, same) = spin_round i s v in
    rw (go, q, parse_loop) (parse_loop-Spins fuel i true t (subst (Spins i) (sym same) v))

-- `parse_req` in the binary protocol never returns on a buffer in which, at the position, there is
-- the header of a quiet get that announces a body of 2 ^ 32 - 24 bytes: no number of rounds is
-- enough.
pub parse_req-Spins :
    (fuel : ℕ) (t : Statics) (mem : Memory) (size : ℕ) (s : Parse)
    → t.use_binary ≡ true
    → is_binary_protocol mem ≡ true
    → Spins (record { mem = mem; size = size; is_binary = true }) s.position
    → parse_req fuel t mem size s ≡ none
unfolding parse_req
parse_req-Spins fuel t mem size s u b v = rw (u, b) (parse_loop-Spins fuel _ false s v)
