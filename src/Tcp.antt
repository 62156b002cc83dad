-- ===== src/Tcp.antt =====
-- src/tcp_scanner.cpp and include/tcp_scanner.hpp: the TCP connect scanner.
pub mod State
pub mod Connect
pub mod Poll
pub mod Reap
pub mod Run
pub mod Invariant
pub mod Table
pub mod Keeps
pub mod Initiate
pub mod Destructor
pub mod Refused
pub mod Spec
pub mod Refines
pub mod Tests
