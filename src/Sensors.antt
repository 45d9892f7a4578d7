-- ===== src/Sensors.antt =====
-- Sensor health: crates/veloxity_core/src/sensors/health.rs.
pub mod Health
pub mod Latch
