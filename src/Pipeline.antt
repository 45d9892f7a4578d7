-- ===== src/Pipeline.antt =====
-- One pass of RC, command and state: crates/veloxity_core/src/rc/command_state.rs.
pub mod Change
pub mod Run
pub mod LinkLoss
