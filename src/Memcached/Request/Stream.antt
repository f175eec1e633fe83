-- ===== src/Memcached/Request/Stream.antt =====
-- A pipeline of quiet gets and the packet that closes it, from the client's bytes through `parse_req`
-- and `create_req` of src/ext/memcached/memcached.cpp to the bytes for the backend.
use mathlib.Core.List.{append-nil, append_assoc}
use kvproxy.Base.{
  ℕ, suc, ◌+◌, ◌^◌, ◌<◌, ◌≡◌, refl, ◌∙◌, subst, ap, inl, inr, Bool, true, false, some, List, [],
  ◌∷◌, ◌++◌, length, length-append, arith, Bool-cases, ◌==◌,
}
use kvproxy.Base.Word.{add32, sub32, slt32}
use kvproxy.Base.Text.{Text}
use kvproxy.Extension.{Memory, success, Req, copy}
use kvproxy.Memcached.Opcode.{Flags, reads, accepted, command, cmd_getkq}
use kvproxy.Memcached.Header.{Header, is_binary_protocol, binary_req}
use kvproxy.Memcached.Request.{
  Parse, Input, Output, Statics, parse_req, parse_loop, create_req_loop, create_req,
}
use kvproxy.Memcached.Request.Packet.{
  Packet, IsPacket, Holds, encode, body_len, length-encode, req_of, taken, parse_round-packet,
}

-- The bytes of the packets, one after the other.
abbrev pub stream : List Packet → Packet → Text
stream [] last = encode last
stream (k ∷ quiet) last = encode k ++ stream quiet last

abbrev pub quiet_get : Flags
quiet_get = record reads { more = true }

abbrev pub reqs : ℕ → List Packet → Packet → Flags → List Req
reqs p [] last f = req_of f p last ∷ []
reqs p (k ∷ quiet) last f = req_of quiet_get p k ∷ reqs (p + (24 + body_len k)) quiet last f

abbrev pub AllQuiet : List Packet → Type 0
AllQuiet [] = Unit
AllQuiet (k ∷ quiet) = IsPacket k × (k.opcode ≡ cmd_getkq) × AllQuiet quiet

Holds-append :
    (mem : Memory) (p : ℕ) (a b : Text)
    → Holds mem p (a ++ b)
    → Holds mem p a × Holds mem (p + length a) b
Holds-append mem p [] b h =
    let same : p ≡ p + 0 = omega arith in (tt, subst (λ q. Holds mem q b) same h)
Holds-append mem p (c ∷ a) b h =
    let (l, r) = Holds-append mem (suc p) a b h.1 in
    let same : suc p + length a ≡ p + suc (length a) = omega arith in
    ((h.0, l), subst (λ q. Holds mem q b) same r)

copy-Holds :
    (mem : Memory) (p : ℕ) (a : Text)
    → p + length a < 2 ^ 32
    → Holds mem p a
    → copy mem p (length a) ≡ a
unfolding copy
copy-Holds mem p [] small h = refl
copy-Holds mem p (c ∷ a) small h =
    let next : add32 p 1 ≡ suc p = omega arith in
    rw (next, h.0, copy-Holds mem (suc p) a (omega arith) h.1)

command-getkq : (op : ℕ) → op ≡ cmd_getkq → command op ≡ accepted quiet_get
unfolding command
command-getkq op e = rw e

-- The stream of packets after the closing one is parsed in as many rounds as it has packets.
pub parse_loop-stream :
    (quiet : List Packet) (last : Packet) (f : Flags) (i : Input) (b : Bool) (s : Parse)
    → AllQuiet quiet
    → IsPacket last
    → command last.opcode ≡ accepted f
    → f.more ≡ false
    → i.is_binary ≡ true
    → i.size < 2 ^ 31
    → Holds i.mem s.position (stream quiet last)
    → s.position + length (stream quiet last) ≡ i.size
    → (t : Parse) × (parse_loop (suc (length quiet)) i b s ≡ some (success, t))
      × (t.position ≡ i.size)
      × (t.req_data ≡ s.req_data ++ reqs s.position quiet last f)
unfolding parse_loop
parse_loop-stream [] last f i b s q v c m bin small h e =
    let len = length-encode last v in
    let go : slt32 0 (sub32 i.size s.position) ≡ true = ground arith in
    let round = parse_round-packet i s last v bin small (omega arith) f h c in
    (taken f last s, rw (go, round, m, parse_loop), omega arith, refl)
parse_loop-stream (k ∷ quiet) last f i b s q v c m bin small h e =
    let (hk, hrest) = Holds-append i.mem s.position (encode k) (stream quiet last) h in
    let len = length-encode k q.0 in
    let total = length-append (encode k) (stream quiet last) in
    let go : slt32 0 (sub32 i.size s.position) ≡ true = ground arith in
    let round =
      parse_round-packet i s k q.0 bin small (omega arith) quiet_get hk
        (command-getkq k.opcode q.1) in
    let next : s.position + length (encode k) ≡ s.position + (24 + body_len k) = omega arith in
    let (t, run, pos, list) =
      parse_loop-stream quiet last f i true (taken quiet_get k s) q.2 v c m bin small
        (subst (λ p. Holds i.mem p (stream quiet last)) next hrest) (omega arith) in
    (
      t,
      rw (go, round, parse_loop) run,
      pos,
      list ∙ append_assoc s.req_data (req_of quiet_get s.position k ∷ []) _,
    )

-- What `create_req` has to send, once its loop is over.
abbrev sent : Output → Text
sent o = o.bytes ++ o.last

copy-packet :
    (mem : Memory) (p : ℕ) (k : Packet)
    → IsPacket k
    → p + length (encode k) < 2 ^ 32
    → Holds mem p (encode k)
    → copy mem p (24 + body_len k) ≡ encode k
copy-packet mem p k v small h = rw (← length-encode k v) (copy-Holds mem p (encode k) small h)

create_req_loop-stream :
    (quiet : List Packet) (last : Packet) (f : Flags) (mem : Memory) (p : ℕ) (o : Output)
    → AllQuiet quiet
    → IsPacket last
    → Holds mem p (stream quiet last)
    → p + length (stream quiet last) < 2 ^ 32
    → o.last ≡ []
    → sent (create_req_loop mem (reqs p quiet last f) o) ≡ o.bytes ++ stream quiet last
unfolding create_req_loop
create_req_loop-stream [] last f mem p o q v h small e =
    let here = copy-packet mem p last v small h in
    elim (Bool-cases (f.ext == b'e')) [
      | inl mark ↦ rw (mark, here) refl
      | inr plain ↦ rw (plain, here, e) (append-nil _)
    ]
create_req_loop-stream (k ∷ quiet) last f mem p o q v h small e =
    let (hk, hrest) = Holds-append mem p (encode k) (stream quiet last) h in
    let len = length-encode k q.0 in
    let total = length-append (encode k) (stream quiet last) in
    let next : p + length (encode k) ≡ p + (24 + body_len k) = omega arith in
    let here = copy-packet mem p k q.0 (omega arith) hk in
    create_req_loop-stream quiet last f mem (p + (24 + body_len k)) _ q.2 v
      (subst (λ r. Holds mem r (stream quiet last)) next hrest) (omega arith) e
    ∙ ap (λ c. (o.bytes ++ c) ++ stream quiet last) here
    ∙ append_assoc o.bytes (encode k) (stream quiet last)

create_req-stream :
    (quiet : List Packet) (last : Packet) (f : Flags) (mem : Memory)
    → AllQuiet quiet
    → IsPacket last
    → Holds mem 0 (stream quiet last)
    → length (stream quiet last) < 2 ^ 32
    → create_req mem (reqs 0 quiet last f) [] ≡ (success, stream quiet last)
unfolding create_req
create_req-stream quiet last f mem q v h small =
    let bytes =
      create_req_loop-stream quiet last f mem 0 (record { bytes = []; last = [] }) q v h
        (omega arith) refl in
    λ i. (success, bytes i)

pub first_byte :
    (quiet : List Packet) (last : Packet) (mem : Memory)
    → Holds mem 0 (stream quiet last)
    → mem 0 ≡ binary_req
unfolding encode
first_byte [] last mem h = h.0
first_byte (k ∷ quiet) last mem h = h.0

is_binary-stream :
    (quiet : List Packet) (last : Packet) (mem : Memory)
    → Holds mem 0 (stream quiet last)
    → is_binary_protocol mem ≡ true
unfolding is_binary_protocol
is_binary-stream quiet last mem h = rw (first_byte quiet last mem h)

-- The client's bytes are a pipeline of quiet gets and one closing packet with any other command that
-- is taken. Then `parse_req`, in as many rounds as there are packets, accepts the whole buffer, lists
-- one request for each packet, with its key and its flags, and `create_req` on that list writes the
-- client's bytes again, in their order.
pub create_req-parse_req :
    (quiet : List Packet) (last : Packet) (f : Flags) (t : Statics) (mem : Memory) (header : Header)
    → AllQuiet quiet
    → IsPacket last
    → command last.opcode ≡ accepted f
    → f.more ≡ false
    → t.use_binary ≡ true
    → Holds mem 0 (stream quiet last)
    → length (stream quiet last) < 2 ^ 31
    → (s : Parse) × (parse_req
          (suc (length quiet))
          t
          mem
          (length (stream quiet last))
          (record { position = 0; req_data = []; header = header })
        ≡ some (success, s))
      × (s.position ≡ length (stream quiet last))
      × (s.req_data ≡ reqs 0 quiet last f)
      × (create_req mem s.req_data [] ≡ (success, stream quiet last))
unfolding parse_req
create_req-parse_req quiet last f t mem header q v c m bin h small =
    let (s, run, pos, list) =
      parse_loop-stream quiet last f
        (record { mem = mem; size = length (stream quiet last); is_binary = true }) false
        (record { position = 0; req_data = []; header = header }) q v c m refl small h
        (omega arith) in
    (
      s,
      rw (bin, is_binary-stream quiet last mem h) run,
      pos,
      list,
      ap (λ l. create_req mem l []) list ∙ create_req-stream quiet last f mem q v h (omega arith),
    )
