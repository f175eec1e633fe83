-- ===== src/Memcached/Opcode.antt =====
-- The command codes of src/ext/memcached/protocol_binary.h that the extension knows, and what
-- `get_opcode` of memcached.cpp makes of a text command.
use kvproxy.Base.{ℕ, Bool, true, false, ◌&&◌, [], ◌∷◌, ◌==◌, if◌then◌else◌}
use kvproxy.Base.Word.{add32}
use kvproxy.Base.Text.{Text, codes}
use kvproxy.Extension.{Memory}

abbrev pub cmd_get : ℕ
cmd_get = 0x00

abbrev pub cmd_set : ℕ
cmd_set = 0x01

abbrev pub cmd_add : ℕ
cmd_add = 0x02

abbrev pub cmd_replace : ℕ
cmd_replace = 0x03

abbrev pub cmd_delete : ℕ
cmd_delete = 0x04

abbrev pub cmd_increment : ℕ
cmd_increment = 0x05

abbrev pub cmd_decrement : ℕ
cmd_decrement = 0x06

abbrev pub cmd_quit : ℕ
cmd_quit = 0x07

abbrev pub cmd_noop : ℕ
cmd_noop = 0x0a

abbrev pub cmd_getkq : ℕ
cmd_getkq = 0x0d

abbrev pub cmd_append : ℕ
cmd_append = 0x0e

abbrev pub cmd_prepend : ℕ
cmd_prepend = 0x0f

-- strncmp(data, text, strlen(text)) == 0, for the literals, which hold no zero byte.
unfoldable pub starts_at : Memory → ℕ → Text → Bool
starts_at mem p [] = true
starts_at mem p (c ∷ text) = mem p == c && starts_at mem (add32 p 1) text

unfoldable pub get_opcode : Memory → ℕ → ℕ
get_opcode mem p =
    if starts_at mem p (codes "get")
    then cmd_get
    else if starts_at mem p (codes "set")
    then cmd_set
    else if starts_at mem p (codes "add")
    then cmd_add
    else if starts_at mem p (codes "replace")
    then cmd_replace
    else if starts_at mem p (codes "delete")
    then cmd_delete
    else if starts_at mem p (codes "incr")
    then cmd_increment
    else if starts_at mem p (codes "decr")
    then cmd_decrement
    else if starts_at mem p (codes "quit")
    then cmd_quit
    else if starts_at mem p (codes "append")
    then cmd_append
    else if starts_at mem p (codes "prepend")
    then cmd_prepend
    else 0

-- What `parse_req` does with a command: take the request, with its flags, or return at once.
pub record Flags : Type 0 where
  pub update : Bool
  pub each : Bool
  pub ext : ℕ
  -- is_agin: another request has to follow.
  pub more : Bool

pub data Command : Type 0 where
  accepted : Flags → Command
  ignored refused : Command

abbrev pub reads : Flags
reads = record { update = false; each = false; ext = 0; more = false }

abbrev pub updates : Flags
updates = record { update = true; each = false; ext = 0; more = false }

unfoldable pub command : ℕ → Command
command opcode =
    if opcode == cmd_set
    then accepted updates
    else if opcode == cmd_get
    then accepted reads
    else if opcode == cmd_getkq
    then accepted (record reads { more = true })
    else if opcode == cmd_noop
    then accepted (record reads { each = true; ext = b'e' })
    else if opcode == cmd_add
    then accepted updates
    else if opcode == cmd_delete
    then accepted updates
    else if opcode == cmd_increment
    then accepted updates
    else if opcode == cmd_decrement
    then accepted updates
    else if opcode == cmd_append
    then accepted updates
    else if opcode == cmd_prepend
    then accepted updates
    else if opcode == cmd_replace
    then accepted updates
    else if opcode == cmd_quit
    then ignored
    else refused
