-- ===== src/ScreenSpace.antt =====
-- The coordinate spaces of seamless switching, crates/tailkvm-win32/src/screen_space.rs.
pub mod Types
pub mod Combined
pub mod Mapping
pub mod Guard
pub mod Clamp
pub mod Bounds
pub mod Crossing
pub mod Bounce
mod Tests
