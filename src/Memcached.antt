-- ===== src/Memcached.antt =====
-- src/ext/memcached: the memcached extension.
pub mod Opcode
pub mod Header
pub mod Request
pub mod Response
pub mod Binding
mod Tests
