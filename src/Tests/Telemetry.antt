-- ===== src/Tests/Telemetry.antt =====
-- The theorems on the telemetry scheduler at concrete inputs.
use veloxity.Base.{ℕ, ◌+◌, ◌*◌, ◌<◌, ◌≤◌, ◌≡◌, refl, true, none, some, arith}
use veloxity.Telemetry.Due.{stream_due, interval_us}
use veloxity.Telemetry.Streams.{
  NamedTelemetryStream, baro, SampleTimes, bounded_high_rate_transport,
}
use veloxity.Telemetry.Scheduler.{
  CommManager, new, set_telemetry_rates, named_telemetry_stream_deadline,
}
use veloxity.Telemetry.Send.{
  select_due_named_telemetry_stream, named_telemetry_due, send_one_named_telemetry_stream,
}
use veloxity.Telemetry.Cadence.{stream_due_keeps_cadence}
use veloxity.Telemetry.Selection.{chooses_earliest}
use veloxity.Telemetry.Freshness.{send_one-sends}

-- At 100 Hz, 25 ms after the last period began.
stream_due_keeps_cadence_example :
    let last' = (stream_due 125000 100000 100).1 in
    (last' ≤ 125000)
    × (125000 < last' + interval_us 100)
    × (intervals : ℕ) × (last' ≡ 100000 + intervals * interval_us 100)
stream_due_keeps_cadence_example =
    stream_due_keeps_cadence 125000 100000 100 (omega arith) (omega arith) (omega arith)
      (omega arith) (omega arith)

abbrev manager : CommManager
manager = set_telemetry_rates (new 100000) bounded_high_rate_transport

abbrev samples : SampleTimes
samples = record {
  imu = some 124000;
  rc = none;
  gnss = none;
  pitot = none;
  baro = some 120000;
  mag = none;
  range = none;
  battery = none;
}

chooses_earliest_example :
    (chosen : NamedTelemetryStream) × (earliest : ℕ) × (select_due_named_telemetry_stream manager
        125000 samples
      ≡ some chosen)
    × (named_telemetry_stream_deadline manager chosen 125000 samples ≡ some earliest)
    × (earliest ≤ 0)
unfolding named_telemetry_stream_deadline set_telemetry_rates new bounded_high_rate_transport
chooses_earliest_example = chooses_earliest manager 125000 samples baro 0 refl

send_one-sends_example : (send_one_named_telemetry_stream manager 125000 samples).1 ≡ true
unfolding named_telemetry_due named_telemetry_stream_deadline set_telemetry_rates new
    bounded_high_rate_transport
send_one-sends_example = send_one-sends manager 125000 samples
