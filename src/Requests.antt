-- ===== src/Requests.antt =====
-- The requests to read, list and set parameters: crates/veloxity_core/src/params/service.rs.
pub mod Service
pub mod Listed
pub mod Set
pub mod Stored
pub mod Mixers
pub mod Typed
