-- ===== src/Telemetry/Scheduler.antt =====
-- The scheduler of `CommManager` of crates/veloxity_core/src/comm.rs: the deadline of a stream, the choice
-- of the earliest, and the sending. The bytes that the link writes are left out.
use veloxity.Base.{ℕ, ◌%◌, Bool, true, false, not, ◌&&◌, Option, none, some, ◌==◌, if◌then◌else◌}
use veloxity.Params.{Params, ParamId}
use veloxity.Telemetry.Due.{stream_due_deadline_us, fixed_rate_due_deadline_us}
use veloxity.Telemetry.Streams.{
  NamedTelemetryStream, heartbeat, status, imu, rc, attitude, output_raw, gnss, diff_pressure, baro,
  mag, range, battery, TelemetryRates, from_params, upstream, telemetry_rate_param,
  telemetry_stream_for_param, TelemetryRateState, TelemetryFreshnessState, last_sent, SampleTimes,
  telemetry_stream_sample_timestamp,
}

-- The link and the messages are left out.
pub record CommManager : Type 0 where
  pub last_heartbeat_us : ℕ
  pub last_status_send_us : ℕ
  pub output_raw_imu_count : ℕ
  pub telemetry_rates : TelemetryRates
  pub telemetry_rate_state : TelemetryRateState
  pub telemetry_freshness : TelemetryFreshnessState

abbrev pub no_periods : TelemetryRateState
no_periods = record {
  imu_us = 0;
  attitude_us = 0;
  output_raw_us = 0;
  diff_pressure_us = 0;
  baro_us = 0;
  mag_us = 0;
  range_us = 0;
  battery_us = 0;
  gnss_us = 0;
  rc_us = 0;
}

abbrev nothing_sent : TelemetryFreshnessState
nothing_sent = record {
  imu = none;
  attitude = none;
  output_raw = none;
  diff_pressure = none;
  baro = none;
  mag = none;
  range = none;
  battery = none;
  gnss = none;
  rc = none;
}

unfoldable pub new : ℕ → CommManager
unfolding upstream
new now_us = record {
  last_heartbeat_us = now_us;
  last_status_send_us = now_us;
  output_raw_imu_count = 0;
  telemetry_rates = upstream;
  telemetry_rate_state = no_periods;
  telemetry_freshness = nothing_sent;
}

unfoldable pub set_telemetry_rates : CommManager → TelemetryRates → CommManager
set_telemetry_rates m rates = record m {
  telemetry_rates = rates;
  telemetry_rate_state = no_periods;
  output_raw_imu_count = 0;
}

unfoldable pub configure_telemetry_from_params : {F : Type 0} → CommManager → Params F → CommManager
unfolding set_telemetry_rates from_params
configure_telemetry_from_params m params = set_telemetry_rates m (from_params params)

-- The rate of a stream, and the start of its period.
abbrev pub rate_hz : CommManager → NamedTelemetryStream → ℕ
rate_hz m heartbeat = m.telemetry_rates.heartbeat_hz
rate_hz m status = m.telemetry_rates.status_hz
rate_hz m imu = m.telemetry_rates.imu_hz
rate_hz m rc = m.telemetry_rates.rc_hz
rate_hz m attitude = m.telemetry_rates.attitude_hz
rate_hz m output_raw = m.telemetry_rates.output_raw_hz
rate_hz m gnss = m.telemetry_rates.gnss_hz
rate_hz m diff_pressure = m.telemetry_rates.diff_pressure_hz
rate_hz m baro = m.telemetry_rates.baro_hz
rate_hz m mag = m.telemetry_rates.mag_hz
rate_hz m range = m.telemetry_rates.range_hz
rate_hz m battery = m.telemetry_rates.battery_hz

abbrev pub last_us : CommManager → NamedTelemetryStream → ℕ
last_us m heartbeat = m.last_heartbeat_us
last_us m status = m.last_status_send_us
last_us m imu = m.telemetry_rate_state.imu_us
last_us m rc = m.telemetry_rate_state.rc_us
last_us m attitude = m.telemetry_rate_state.attitude_us
last_us m output_raw = m.telemetry_rate_state.output_raw_us
last_us m gnss = m.telemetry_rate_state.gnss_us
last_us m diff_pressure = m.telemetry_rate_state.diff_pressure_us
last_us m baro = m.telemetry_rate_state.baro_us
last_us m mag = m.telemetry_rate_state.mag_us
last_us m range = m.telemetry_rate_state.range_us
last_us m battery = m.telemetry_rate_state.battery_us

abbrev pub with_last_us : CommManager → NamedTelemetryStream → ℕ → CommManager
with_last_us m heartbeat t = record m { last_heartbeat_us = t }
with_last_us m status t = record m { last_status_send_us = t }
with_last_us m imu t = record m {
  telemetry_rate_state = record (m.telemetry_rate_state) { imu_us = t };
}
with_last_us m rc t = record m {
  telemetry_rate_state = record (m.telemetry_rate_state) { rc_us = t };
}
with_last_us m attitude t = record m {
  telemetry_rate_state = record (m.telemetry_rate_state) { attitude_us = t };
}
with_last_us m output_raw t = record m {
  telemetry_rate_state = record (m.telemetry_rate_state) { output_raw_us = t };
}
with_last_us m gnss t = record m {
  telemetry_rate_state = record (m.telemetry_rate_state) { gnss_us = t };
}
with_last_us m diff_pressure t = record m {
  telemetry_rate_state = record (m.telemetry_rate_state) { diff_pressure_us = t };
}
with_last_us m baro t = record m {
  telemetry_rate_state = record (m.telemetry_rate_state) { baro_us = t };
}
with_last_us m mag t = record m {
  telemetry_rate_state = record (m.telemetry_rate_state) { mag_us = t };
}
with_last_us m range t = record m {
  telemetry_rate_state = record (m.telemetry_rate_state) { range_us = t };
}
with_last_us m battery t = record m {
  telemetry_rate_state = record (m.telemetry_rate_state) { battery_us = t };
}

abbrev pub with_rates : CommManager → TelemetryRates → CommManager
with_rates m rates = record m { telemetry_rates = rates }

abbrev pub with_rate_hz : CommManager → NamedTelemetryStream → ℕ → CommManager
with_rate_hz m heartbeat rate = with_rates m (record (m.telemetry_rates) { heartbeat_hz = rate })
with_rate_hz m status rate = with_rates m (record (m.telemetry_rates) { status_hz = rate })
with_rate_hz m imu rate = with_rates m (record (m.telemetry_rates) { imu_hz = rate })
with_rate_hz m rc rate = with_rates m (record (m.telemetry_rates) { rc_hz = rate })
with_rate_hz m attitude rate = with_rates m (record (m.telemetry_rates) { attitude_hz = rate })
with_rate_hz m output_raw rate = record m {
  telemetry_rates = record (m.telemetry_rates) { output_raw_hz = rate; output_raw_imu_divisor = 0 };
  output_raw_imu_count = 0;
}
with_rate_hz m gnss rate = with_rates m (record (m.telemetry_rates) { gnss_hz = rate })
with_rate_hz m diff_pressure rate =
    with_rates m (record (m.telemetry_rates) { diff_pressure_hz = rate })
with_rate_hz m baro rate = with_rates m (record (m.telemetry_rates) { baro_hz = rate })
with_rate_hz m mag rate = with_rates m (record (m.telemetry_rates) { mag_hz = rate })
with_rate_hz m range rate = with_rates m (record (m.telemetry_rates) { range_hz = rate })
with_rate_hz m battery rate = with_rates m (record (m.telemetry_rates) { battery_hz = rate })

abbrev pub restart_period : CommManager → Option NamedTelemetryStream → ℕ → ℕ → CommManager × Bool
restart_period m none rate now_us = (m, false)
restart_period m (some stream) rate now_us =
    (with_last_us (with_rate_hz m stream rate) stream now_us, true)

unfoldable pub update_telemetry_param :
    {F : Type 0} → CommManager → Params F → ParamId → ℕ → CommManager × Bool
unfolding telemetry_stream_for_param telemetry_rate_param
update_telemetry_param m params id now_us =
    restart_period m (telemetry_stream_for_param id) (telemetry_rate_param params id) now_us

abbrev pub same_time : Option ℕ → ℕ → Bool
same_time none t = false
same_time (some s) t = s == t

-- The deadline, unless there is no sample or it has been sent.
abbrev pub unless_sent : Option ℕ → Option ℕ → Option ℕ → Option ℕ
unless_sent none sent deadline = none
unless_sent (some t) sent deadline = if same_time sent t then none else deadline

abbrev pub output_raw_counted : CommManager → Bool
output_raw_counted m =
    not (m.telemetry_rates.output_raw_imu_divisor == 0)
    && (m.output_raw_imu_count % m.telemetry_rates.output_raw_imu_divisor) == 0

unfoldable pub rate_deadline : CommManager → NamedTelemetryStream → ℕ → Option ℕ
unfolding stream_due_deadline_us fixed_rate_due_deadline_us
rate_deadline m heartbeat now_us =
    fixed_rate_due_deadline_us now_us (last_us m heartbeat) (rate_hz m heartbeat)
rate_deadline m status now_us =
    fixed_rate_due_deadline_us now_us (last_us m status) (rate_hz m status)
rate_deadline m output_raw now_us =
    if rate_hz m output_raw == 0
    then if output_raw_counted m then some now_us else none
    else stream_due_deadline_us now_us (last_us m output_raw) (rate_hz m output_raw)
rate_deadline m stream now_us = stream_due_deadline_us now_us (last_us m stream) (rate_hz m stream)

abbrev pub is_periodic : NamedTelemetryStream → Bool
is_periodic heartbeat = true
is_periodic status = true
is_periodic _ = false

unfoldable pub named_telemetry_stream_deadline :
    CommManager → NamedTelemetryStream → ℕ → SampleTimes → Option ℕ
unfolding rate_deadline last_sent telemetry_stream_sample_timestamp
named_telemetry_stream_deadline m stream now_us sensors =
    if is_periodic stream
    then rate_deadline m stream now_us
    else unless_sent (telemetry_stream_sample_timestamp stream sensors)
        (last_sent m.telemetry_freshness stream) (rate_deadline m stream now_us)
