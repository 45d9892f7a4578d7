-- ===== src/Control.antt =====
-- The control pipeline: crates/veloxity_core/src/control.rs.
pub mod Stages
pub mod Run
pub mod Disarmed
