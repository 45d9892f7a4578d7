-- ===== src/Telemetry/Once.antt =====
-- A telemetry sample is sent once, whatever rates are set after it: crates/veloxity_core/src/comm.rs.
use veloxity.Params.{Params}
