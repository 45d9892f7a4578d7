-- ===== src/Events.antt =====
-- The event queues: crates/veloxity_core/src/events.rs.
pub mod Deque
pub mod Queue
pub mod Response
