-- ===== src/Ime.antt =====
-- Composition with the local IME: the mode automaton, apps/tailkvm-ui/src-tauri/src/ime_mode.rs, and
-- the place of the candidate window, crates/tailkvm-win32/src/ime_anchor.rs.
pub mod Mode
pub mod Anchor
pub mod Projection
mod Tests
