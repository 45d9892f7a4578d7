-- ===== src/Companion.antt =====
-- What the companion sends: crates/veloxity_core/src/companion.rs.
pub mod Inputs
pub mod Drained
