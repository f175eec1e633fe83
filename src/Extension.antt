-- ===== src/Extension.antt =====
-- src/extension.h: what the proxy and a protocol extension pass to each other.
--
-- A pointer into a buffer is the offset from the buffer's start, as a 32-bit pattern: an offset
-- below zero has a pattern from 2 ^ 31 on. `Memory` gives the byte at each offset, also past the
-- bytes that were received, where it is whatever the buffer holds there.
use kvproxy.Base.{ℕ, zero, suc, ◌+◌, Bool, Option, List, [], ◌∷◌, ◌==◌, if◌then◌else◌}
use kvproxy.Base.Word.{add32}
use kvproxy.Base.Text.{Text}

abbrev pub Memory : Type 0
Memory = ℕ → ℕ

-- ext_ret_t
pub data ExtRet : Type 0 where
  again success error ignore : ExtRet

-- req_t. Of `ext` the extension writes and reads the first byte only.
pub record Req : Type 0 where
  pub key : ℕ
  pub key_len : ℕ
  pub content : ℕ
  pub content_len : ℕ
  pub update : Bool
  pub each : Bool
  pub ext : ℕ

-- resp_t
pub record Resp : Type 0 where
  pub content : ℕ
  pub content_len : ℕ
  pub ext : ℕ

-- comm_t
pub record Comm : Type 0 where
  pub content : Text
  pub ext : ℕ

-- The len bytes at an offset: what memcpy reads, or string(ptr, len).
unfoldable pub copy : Memory → ℕ → ℕ → Text
copy mem p zero = []
copy mem p (suc n) = mem p ∷ copy mem (add32 p 1) n

-- The functions that an extension gives the proxy (parse_req_t and so on), without get_conf. A
-- parser is given *position and the list, and gives both back; `none` means that it does not return.
-- A writer is given the bytes that the buffer holds, whose number is *length.
pub record Functions : Type 0 where
  pub parse_req : Memory → ℕ → ℕ × List Req → Option (ExtRet × (ℕ × List Req))
  pub create_req : Memory → List Req → Text → ExtRet × Text
  pub create_req_async : List Comm → Text → ExtRet × Text
  pub parse_resp : Memory → ℕ → ℕ × List Resp → Option (ExtRet × (ℕ × List Resp))
  pub create_resp : Memory → ℕ → List Resp → Text → ExtRet × Text

-- The buffer with bytes written from an offset on: what recv does.
unfoldable pub store : ℕ → Text → Memory → Memory
store p [] mem = mem
store p (c ∷ bytes) mem = store (p + 1) bytes (λ q. if q == p then c else mem q)
