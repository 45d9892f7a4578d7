-- ===== src/Telemetry/Streams.antt =====
-- The telemetry streams of crates/veloxity_core/src/comm.rs, with the rates, the periods and the samples
-- sent last.
use veloxity.Base.{ℕ, Option, none, some, min, ◌==◌, if◌then◌else◌}
use veloxity.Base.Int.{pos, negsuc}
use veloxity.Params.{
  Params, ParamId, ParamValue, int, get_by_id, param_telem_heartbeat_hz, param_telem_status_hz,
  param_telem_imu_hz, param_telem_attitude_hz, param_telem_output_raw_hz,
  param_telem_diff_pressure_hz, param_telem_baro_hz, param_telem_mag_hz, param_telem_range_hz,
  param_telem_battery_hz, param_telem_gnss_hz, param_telem_rc_hz,
}
use veloxity.Telemetry.Due.{telemetry_rate_disabled}

pub data NamedTelemetryStream : Type 0 where
  heartbeat status imu rc attitude output_raw gnss diff_pressure baro mag range battery :
      NamedTelemetryStream

abbrev pub max_telemetry_rate_hz : ℕ
max_telemetry_rate_hz = 2000

-- u16 rates and a u64 divisor.
pub record TelemetryRates : Type 0 where
  pub heartbeat_hz : ℕ
  pub status_hz : ℕ
  pub imu_hz : ℕ
  pub attitude_hz : ℕ
  pub output_raw_hz : ℕ
  pub diff_pressure_hz : ℕ
  pub baro_hz : ℕ
  pub mag_hz : ℕ
  pub range_hz : ℕ
  pub battery_hz : ℕ
  pub gnss_hz : ℕ
  pub rc_hz : ℕ
  pub output_raw_imu_divisor : ℕ

abbrev rate_of_value : {F : Type 0} → ParamValue F → ℕ
rate_of_value (int (negsuc n)) = telemetry_rate_disabled
rate_of_value (int (pos n)) = min n max_telemetry_rate_hz
rate_of_value _ = telemetry_rate_disabled

unfoldable pub telemetry_rate_param : {F : Type 0} → Params F → ParamId → ℕ
telemetry_rate_param params id = rate_of_value (get_by_id params id)

unfoldable pub from_params : {F : Type 0} → Params F → TelemetryRates
unfolding telemetry_rate_param
from_params params = record {
  heartbeat_hz = telemetry_rate_param params param_telem_heartbeat_hz;
  status_hz = telemetry_rate_param params param_telem_status_hz;
  imu_hz = telemetry_rate_param params param_telem_imu_hz;
  attitude_hz = telemetry_rate_param params param_telem_attitude_hz;
  output_raw_hz = telemetry_rate_param params param_telem_output_raw_hz;
  diff_pressure_hz = telemetry_rate_param params param_telem_diff_pressure_hz;
  baro_hz = telemetry_rate_param params param_telem_baro_hz;
  mag_hz = telemetry_rate_param params param_telem_mag_hz;
  range_hz = telemetry_rate_param params param_telem_range_hz;
  battery_hz = telemetry_rate_param params param_telem_battery_hz;
  gnss_hz = telemetry_rate_param params param_telem_gnss_hz;
  rc_hz = telemetry_rate_param params param_telem_rc_hz;
  output_raw_imu_divisor = 0;
}

unfoldable pub upstream : TelemetryRates
upstream = record {
  heartbeat_hz = 1;
  status_hz = 10;
  imu_hz = 0;
  attitude_hz = 0;
  output_raw_hz = 0;
  diff_pressure_hz = 0;
  baro_hz = 0;
  mag_hz = 0;
  range_hz = 0;
  battery_hz = 0;
  gnss_hz = 0;
  rc_hz = 0;
  output_raw_imu_divisor = 8;
}

unfoldable pub bounded_high_rate_transport : TelemetryRates
bounded_high_rate_transport = record {
  heartbeat_hz = 1;
  status_hz = 10;
  imu_hz = 400;
  attitude_hz = 50;
  output_raw_hz = 50;
  diff_pressure_hz = 50;
  baro_hz = 25;
  mag_hz = 25;
  range_hz = 50;
  battery_hz = 25;
  gnss_hz = 10;
  rc_hz = 100;
  output_raw_imu_divisor = 0;
}

unfoldable pub telemetry_stream_for_param : ParamId → Option NamedTelemetryStream
telemetry_stream_for_param id =
    if id == param_telem_heartbeat_hz
    then some heartbeat
    else if id == param_telem_status_hz
    then some status
    else if id == param_telem_imu_hz
    then some imu
    else if id == param_telem_attitude_hz
    then some attitude
    else if id == param_telem_output_raw_hz
    then some output_raw
    else if id == param_telem_diff_pressure_hz
    then some diff_pressure
    else if id == param_telem_baro_hz
    then some baro
    else if id == param_telem_mag_hz
    then some mag
    else if id == param_telem_range_hz
    then some range
    else if id == param_telem_battery_hz
    then some battery
    else if id == param_telem_gnss_hz
    then some gnss
    else if id == param_telem_rc_hz
    then some rc
    else none

-- The starts of the periods.
pub record TelemetryRateState : Type 0 where
  pub imu_us : ℕ
  pub attitude_us : ℕ
  pub output_raw_us : ℕ
  pub diff_pressure_us : ℕ
  pub baro_us : ℕ
  pub mag_us : ℕ
  pub range_us : ℕ
  pub battery_us : ℕ
  pub gnss_us : ℕ
  pub rc_us : ℕ

-- The timestamps of the samples sent last.
pub record TelemetryFreshnessState : Type 0 where
  pub imu : Option ℕ
  pub attitude : Option ℕ
  pub output_raw : Option ℕ
  pub diff_pressure : Option ℕ
  pub baro : Option ℕ
  pub mag : Option ℕ
  pub range : Option ℕ
  pub battery : Option ℕ
  pub gnss : Option ℕ
  pub rc : Option ℕ

unfoldable pub last_sent : TelemetryFreshnessState → NamedTelemetryStream → Option ℕ
last_sent f heartbeat = none
last_sent f status = none
last_sent f imu = f.imu
last_sent f rc = f.rc
last_sent f attitude = f.attitude
last_sent f output_raw = f.output_raw
last_sent f gnss = f.gnss
last_sent f diff_pressure = f.diff_pressure
last_sent f baro = f.baro
last_sent f mag = f.mag
last_sent f range = f.range
last_sent f battery = f.battery

unfoldable pub mark_sent :
    TelemetryFreshnessState → NamedTelemetryStream → ℕ → TelemetryFreshnessState
mark_sent f heartbeat timestamp = f
mark_sent f status timestamp = f
mark_sent f imu timestamp = record f { imu = some timestamp }
mark_sent f rc timestamp = record f { rc = some timestamp }
mark_sent f attitude timestamp = record f { attitude = some timestamp }
mark_sent f output_raw timestamp = record f { output_raw = some timestamp }
mark_sent f gnss timestamp = record f { gnss = some timestamp }
mark_sent f diff_pressure timestamp = record f { diff_pressure = some timestamp }
mark_sent f baro timestamp = record f { baro = some timestamp }
mark_sent f mag timestamp = record f { mag = some timestamp }
mark_sent f range timestamp = record f { range = some timestamp }
mark_sent f battery timestamp = record f { battery = some timestamp }

-- The timestamps of the processed samples.
pub record SampleTimes : Type 0 where
  pub imu : Option ℕ
  pub rc : Option ℕ
  pub gnss : Option ℕ
  pub pitot : Option ℕ
  pub baro : Option ℕ
  pub mag : Option ℕ
  pub range : Option ℕ
  pub battery : Option ℕ

unfoldable pub telemetry_stream_sample_timestamp : NamedTelemetryStream → SampleTimes → Option ℕ
telemetry_stream_sample_timestamp heartbeat sensors = none
telemetry_stream_sample_timestamp status sensors = none
telemetry_stream_sample_timestamp imu sensors = sensors.imu
telemetry_stream_sample_timestamp rc sensors = sensors.rc
telemetry_stream_sample_timestamp attitude sensors = sensors.imu
telemetry_stream_sample_timestamp output_raw sensors = sensors.imu
telemetry_stream_sample_timestamp gnss sensors = sensors.gnss
telemetry_stream_sample_timestamp diff_pressure sensors = sensors.pitot
telemetry_stream_sample_timestamp baro sensors = sensors.baro
telemetry_stream_sample_timestamp mag sensors = sensors.mag
telemetry_stream_sample_timestamp range sensors = sensors.range
telemetry_stream_sample_timestamp battery sensors = sensors.battery
