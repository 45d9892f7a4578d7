-- ===== src/Pwm.antt =====
-- The PWM outputs: crates/veloxity_core/src/pwm.rs and pwm/output_sync.rs.
pub mod Driver
pub mod Sync
pub mod Outputs
pub mod Rates
pub mod Safe
pub mod Tracking
pub mod Settled
