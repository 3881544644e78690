-- ===== src/Net.antt =====
-- The network crate, crates/tailkvm-net: motion datagrams, their ordering, and the wire protocol.
pub mod Bytes
pub mod Motion
pub mod Seq
pub mod Protocol
mod Tests
