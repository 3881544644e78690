-- ===== src/Core.antt =====
-- The platform-independent crate, crates/tailkvm-core.
pub mod PushGate
pub mod Geometry
mod Tests
