-- ===== src/StateMachine.antt =====
-- The arming state machine: crates/veloxity_core/src/state_machine.rs.
pub mod Flags
pub mod Machine
pub mod Manager
pub mod Arming
pub mod Errors
pub mod Failsafe
