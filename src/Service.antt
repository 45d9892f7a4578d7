-- ===== src/Service.antt =====
-- The commands that the companion sends: crates/veloxity_core/src/command/service.rs.
pub mod Board
pub mod Calibration
pub mod Requests
pub mod Storage
