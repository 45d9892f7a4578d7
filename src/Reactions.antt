-- ===== src/Reactions.antt =====
-- The reactions to changed parameters: crates/veloxity_core/src/params/reactions.rs.
pub mod Apply
pub mod Mappings
pub mod Configured
