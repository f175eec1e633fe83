-- ===== src/Memcached/Request/Packet.antt =====
-- The binary packets that a client sends, as the protocol lays them out, and what `parse_req` and
-- `create_req` of src/ext/memcached/memcached.cpp make of them.
use kvproxy.Base.{
  ℕ, suc, ◌+◌, ◌/◌, ◌%◌, ◌^◌, ◌≤◌, ◌<◌, ◌≡◌, refl, true, false, [], ◌∷◌, ◌++◌, length,
  length-append, arith, if◌then◌else◌,
}
use kvproxy.Base.Word.{add32, sub32, slt32}
use kvproxy.Base.Text.{Text}
use kvproxy.Extension.{Memory, success, Req}
use kvproxy.Memcached.Opcode.{Flags, accepted, command}
use kvproxy.Memcached.Header.{
  Header, complete, word16, word32, binary_req, binary_header, try_read_request_binary,
}
use kvproxy.Memcached.Request.{
  Parse, Input, header_len, Round, return, continue, new_req, push_req, take_req, dispatch, on_read,
  read_header, parse_round,
}

-- A request packet: its header fields, and the three parts of its body.
pub record Packet : Type 0 where
  pub opcode : ℕ
  pub datatype : ℕ
  pub reserved : ℕ
  -- opaque and cas, twelve bytes
  pub opaque_cas : Text
  pub extras : Text
  pub key : Text
  pub value : Text

abbrev pub body : Packet → Text
body p = p.opaque_cas ++ (p.extras ++ (p.key ++ p.value))

abbrev pub body_len : Packet → ℕ
body_len p = length p.extras + length p.key + length p.value

-- The two low bytes of a number, the high one first.
abbrev pub bytes16 : ℕ → Text
bytes16 n = (n / 256 % 256) ∷ (n % 256) ∷ []

-- The bytes of a packet.
unfoldable pub encode : Packet → Text
encode p =
    binary_req
    ∷ p.opcode
    ∷ (length p.key / 256 % 256)
    ∷ (length p.key % 256)
    ∷ length p.extras
    ∷ p.datatype
    ∷ (p.reserved / 256 % 256)
    ∷ (p.reserved % 256)
    ∷ (body_len p / 16777216 % 256)
    ∷ (body_len p / 65536 % 256)
    ∷ (body_len p / 256 % 256)
    ∷ (body_len p % 256)
    ∷ body p

-- The lengths fit their fields.
pub record IsPacket (p : Packet) : Type 0 where
  pub key : length p.key < 2 ^ 16
  pub extras : length p.extras < 256
  pub opaque_cas : length p.opaque_cas ≡ 12
  pub body : body_len p < 2 ^ 30

-- The buffer holds these bytes from the offset p on.
abbrev pub Holds : Memory → ℕ → Text → Type 0
Holds mem p [] = Unit
Holds mem p (c ∷ text) = (mem p ≡ c) × Holds mem (suc p) text

-- The header that the reader finds.
abbrev pub header_of : Packet → Header
header_of p = record {
  keylen = length p.key;
  extlen = length p.extras;
  bodylen = body_len p;
  opcode = p.opcode;
}

read_at : (mem : Memory) {q r c : ℕ} → q ≡ r → mem r ≡ c → mem q ≡ c
read_at mem e h = rw e h

word16-Holds :
    (mem : Memory) (q r n : ℕ)
    → q ≡ r
    → r + 2 < 2 ^ 31
    → mem r ≡ n / 256 % 256
    → mem (suc r) ≡ n % 256
    → n < 2 ^ 16
    → word16 mem q ≡ n
word16-Holds mem q r n e small hi lo fits =
    let next : add32 q 1 ≡ suc r = omega arith in
    omega (arith, read_at mem e hi, read_at mem next lo)

word32-Holds :
    (mem : Memory) (q r n : ℕ)
    → q ≡ r
    → r + 4 < 2 ^ 31
    → mem r ≡ n / 16777216 % 256
    → mem (suc r) ≡ n / 65536 % 256
    → mem (suc (suc r)) ≡ n / 256 % 256
    → mem (suc (suc (suc r))) ≡ n % 256
    → n < 2 ^ 32
    → word32 mem q ≡ n
word32-Holds mem q r n e small b3 b2 b1 b0 fits =
    let high : word16 mem q ≡ n / 65536 =
      word16-Holds mem q r (n / 65536) e (omega arith) (omega arith) (omega arith) (omega arith) in
    let low : word16 mem (add32 q 2) ≡ n % 65536 =
      word16-Holds mem (add32 q 2) (suc (suc r)) (n % 65536) (omega arith) (omega arith)
        (omega arith) (omega arith) (omega arith) in
    omega (arith, high, low)

binary_header-Holds :
    (mem : Memory) (p : ℕ) (k : Packet)
    → IsPacket k
    → p + 24 < 2 ^ 31
    → Holds mem p (encode k)
    → binary_header mem p ≡ header_of k
unfolding binary_header encode
binary_header-Holds mem p k v small
      (_, (op, (k1, (k0, (ex, (_, (_, (_, (b3, (b2, (b1, (b0, _)))))))))))) =
    let keylen =
      word16-Holds mem (add32 p 2) (suc (suc p)) (length k.key) (omega arith) (omega arith) k1 k0
        v.key in
    let extlen = read_at mem {q = add32 p 4} (omega arith) ex in
    let bodylen =
      word32-Holds mem (add32 p 8) (suc (suc (suc (suc (suc (suc (suc (suc p)))))))) (body_len k)
        (omega arith) (omega arith) b3 b2 b1 b0 (omega (arith, v.body)) in
    let opcode = read_at mem {q = add32 p 1} (omega arith) op in
    λ i. record { keylen = keylen i; extlen = extlen i; bodylen = bodylen i; opcode = opcode i }

pub length-encode : (k : Packet) → IsPacket k → length (encode k) ≡ 24 + body_len k
unfolding encode
length-encode k v = omega (
  arith,
  v.opaque_cas,
  length-append k.opaque_cas (k.extras ++ (k.key ++ k.value)),
  length-append k.extras (k.key ++ k.value),
  length-append k.key k.value,
)

-- The request that the packet at an offset becomes.
abbrev pub req_of : Flags → ℕ → Packet → Req
req_of f p k = record {
  key = p + 24 + length k.extras;
  key_len = length k.key;
  content = p;
  content_len = 24 + body_len k;
  update = f.update;
  each = f.each;
  ext = f.ext;
}

abbrev pub taken : Flags → Packet → Parse → Parse
taken f k s = record {
  position = s.position + (24 + body_len k);
  req_data = s.req_data ++ req_of f s.position k ∷ [];
  header = header_of k;
}

abbrev pub outcome : Flags → Parse → Round
outcome f s = if f.more then continue s else return success s

module _ (i : Input) (s : Parse) (k : Packet) (v : IsPacket k) (b : i.is_binary ≡ true)
    (small : i.size < 2 ^ 31) (room : s.position + (24 + body_len k) ≤ i.size) where
  read_header-Holds : Holds i.mem s.position (encode k) → read_header i s ≡ (complete, header_of k)
  unfolding read_header try_read_request_binary
  read_header-Holds h =
      let long : slt32 (sub32 i.size s.position) 24 ≡ false = ground arith in
      let magic : i.mem s.position ≡ binary_req = unfold encode in h.0 in
      rw (b, long, magic, binary_header-Holds i.mem s.position k v (omega arith) h)

  push_req-packet : (f : Flags) → push_req i (header_of k) f s ≡ taken f k s
  unfolding push_req new_req
  push_req-packet f = rw b (ground (arith, v.key, v.extras))

  take_req-packet : (f : Flags) → take_req i (header_of k) f s ≡ outcome f (taken f k s)
  unfolding take_req
  take_req-packet f =
      let fits : slt32 i.size (add32 (header_len i) (body_len k)) ≡ false = rw b (ground arith) in
      rw (fits, push_req-packet f) refl

  -- A packet that lies in the buffer whole becomes one request, with the flags of its command.
  pub parse_round-packet :
      (f : Flags)
      → Holds i.mem s.position (encode k)
      → command k.opcode ≡ accepted f
      → parse_round i s ≡ outcome f (taken f k s)
  unfolding parse_round on_read dispatch
  parse_round-packet f h c = rw (read_header-Holds h, c) (take_req-packet f)
