-- ===== src/Mixer.antt =====
-- The canned mixers and the parameters that reflect them: crates/veloxity_core/src/mixer/matrix.rs.
pub mod Tables
pub mod Canned
pub mod Reflected
