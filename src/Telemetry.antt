-- ===== src/Telemetry.antt =====
-- The telemetry scheduler of crates/veloxity_core/src/comm.rs.
pub mod Streams
pub mod Due
pub mod Scheduler
pub mod Send
pub mod Cadence
pub mod Candidates
pub mod Selection
pub mod Freshness
pub mod Once
