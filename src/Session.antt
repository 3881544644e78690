-- ===== src/Session.antt =====
-- The TCP session, apps/tailkvm-ui/src-tauri/src/session: its line reader, its write batches, the
-- record of held keys, its reconnect delays, and the receiver's side of it.
pub mod Lines
pub mod Coalesce
pub mod Held
pub mod Backoff
pub mod Supervisor
pub mod Receiver
pub mod Relay
pub mod Trim
pub mod Commands
pub mod Controller
mod Tests
