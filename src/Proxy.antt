-- ===== src/Proxy.antt =====
-- The `KvProxy` class of src/kvproxy.h and src/kvproxy.cpp.
pub mod State
pub mod Failover
pub mod Group
pub mod Backend
pub mod Event
pub mod Setup
pub mod Status
mod Tests
