-- ===== src/Log.antt =====
-- The log queue: crates/veloxity_core/src/log.rs, and its drain, log/drain.rs, of the same crate.
pub mod Text
pub mod Queue
pub mod Truncation
pub mod Ring
pub mod Refinement
pub mod Drain
pub mod Forwarding
