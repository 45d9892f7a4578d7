-- ===== src/Rc.antt =====
-- The radio-control handler: crates/veloxity_core/src/rc.rs.
pub mod Types
pub mod Config
pub mod Input
pub mod Handler
pub mod Bounds
pub mod Mapping
pub mod Link
pub mod Gestures
pub mod Holding
