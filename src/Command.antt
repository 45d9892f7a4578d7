-- ===== src/Command.antt =====
-- The command manager, which turns RC and offboard commands into the one that is flown:
-- crates/veloxity_core/src/command.rs.
pub mod Types
pub mod Lockout
pub mod Manager
pub mod Interpret
pub mod Mux
pub mod Run
pub mod Sources
pub mod AngleLockout
pub mod Offboard
pub mod Failsafe
pub mod Hold
pub mod Bypass
