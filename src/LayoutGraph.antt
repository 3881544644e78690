-- ===== src/LayoutGraph.antt =====
-- The adjacency graph of named screens and the N-screen cursor space of
-- crates/tailkvm-win32/src/layout_graph.rs.
pub mod Graph
pub mod Links
pub mod Space
pub mod Moves
pub mod Runs
mod Tests
pub mod Total
