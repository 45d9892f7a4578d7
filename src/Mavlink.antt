-- ===== src/Mavlink.antt =====
-- The MAVLink link of comms/veloxity_mavlink.
pub mod Crc
pub mod Parser
pub mod Checksum
pub mod Frame
pub mod RoundTrip
pub mod Stream
pub mod Delivered
pub mod Tracking
pub mod Safety
