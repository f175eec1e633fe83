-- ===== src/Server.antt =====
-- src/serv.h and src/serv.cpp: the server that hands accepted sockets to its threads, and the
-- connections that each thread keeps.
pub mod Heap
pub mod Queue
pub mod Threads
pub mod Signals
pub mod Start
pub mod Made
pub mod Delivered
mod Tests
