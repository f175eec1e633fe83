-- ===== src/System.antt =====
-- What src/conn_pool.cpp and src/kvproxy.cpp ask of the operating system: the calls are parameters.
-- A `World` is all that the calls read and change; a descriptor is a 32-bit pattern, as every `int`.
pub mod Example
use kvproxy.Base.{ℕ, Bool}
use kvproxy.Base.Text.{Text}

-- What `send` returns, and whether errno is then EINTR.
pub record Sent : Type 0 where
  pub ret_len : ℕ
  pub interrupted : Bool

-- What `select` tells of one descriptor: an error (with errno EINTR or not), a timeout, or that it
-- returned, with the descriptor's bit.
pub data Selected : Type 0 where
  select_error : Bool → Selected
  timed_out : Selected
  selected : Bool → Selected

-- What `recv` tells: bytes (none when the connection is closed), or -1 with errno EINTR or not.
pub data Received : Type 0 where
  received : Text → Received
  recv_error : Bool → Received

pub record System : Type 1 where
  pub World : Type 0
  pub socket : World → ℕ × World
  -- connect(sock_fd, host:port) >= 0
  pub connect : ℕ → Text → ℕ → World → Bool × World
  pub close : ℕ → World → World
  -- pthread_rwlock_rdlock and pthread_rwlock_wrlock return 0
  pub rdlock : World → Bool × World
  pub wrlock : World → Bool × World
  pub unlock : World → World
  pub send : ℕ → Text → World → Sent × World
  pub select : ℕ → World → Selected × World
  -- The number is the room that is left in the buffer.
  pub recv : ℕ → ℕ → World → Received × World
