-- ===== src/Ping.antt =====
-- src/ping_scanner.cpp. State: the data. Slots: the probe table and the sequence numbers. Packet:
-- the layout of a packet. Socket: setting up the socket and waiting on it. Send, Receive, Reap: the
-- three parts of a round. Run: the loop.
pub mod State
pub mod Slots
pub mod Packet
pub mod Socket
pub mod Send
pub mod Receive
pub mod Reap
pub mod Run
pub mod Table
pub mod Invariant
pub mod Tests
