-- ===== src/Telemetry/Send.antt =====
-- The choice of the stream with the earliest deadline, and what sending changes:
-- crates/veloxity_core/src/comm.rs. The bytes that the link writes are left out.
use veloxity.Base.{
  ℕ, ◌+◌, ◌-◌, ◌%◌, ◌^◌, Bool, true, false, not, ◌||◌, List, [], ◌∷◌, ◌++◌, Option, none, some, ltb,
  ◌==◌, if◌then◌else◌,
}
use veloxity.Telemetry.Due.{stream_due}
use veloxity.Telemetry.Streams.{
  NamedTelemetryStream, heartbeat, status, imu, rc, attitude, output_raw, gnss, diff_pressure, baro,
  mag, range, battery, mark_sent, SampleTimes, telemetry_stream_sample_timestamp,
}
use veloxity.Telemetry.Scheduler.{
  CommManager, rate_hz, last_us, with_last_us, output_raw_counted, same_time,
  named_telemetry_stream_deadline,
}

-- `selected` and `selected_deadline`.
pub record Selection : Type 0 where
  pub selected : Option NamedTelemetryStream
  pub selected_deadline : ℕ

abbrev pub is_none : {A : Type 0} → Option A → Bool
is_none none = true
is_none (some a) = false

abbrev pub considered : Selection → NamedTelemetryStream → Option ℕ → Selection
considered sel stream none = sel
considered sel stream (some deadline) =
    if is_none sel.selected || ltb deadline sel.selected_deadline
    then record { selected = some stream; selected_deadline = deadline }
    else sel

unfoldable pub consider :
    CommManager → ℕ → SampleTimes → Selection → List NamedTelemetryStream → Selection
consider m now_us sensors sel [] = sel
consider m now_us sensors sel (stream ∷ streams) =
    consider m now_us sensors
      (considered sel stream (named_telemetry_stream_deadline m stream now_us sensors)) streams

abbrev pub with_sample : Option ℕ → List NamedTelemetryStream → List NamedTelemetryStream
with_sample none streams = []
with_sample (some t) streams = streams

-- The streams that are considered, in order.
unfoldable pub candidates : SampleTimes → List NamedTelemetryStream
candidates sensors =
    heartbeat
    ∷ status
    ∷ (with_sample sensors.imu (imu ∷ attitude ∷ output_raw ∷ [])
        ++ (with_sample sensors.rc (rc ∷ [])
            ++ (with_sample sensors.gnss (gnss ∷ [])
                ++ (with_sample sensors.pitot (diff_pressure ∷ [])
                    ++ (with_sample sensors.baro (baro ∷ [])
                        ++ (with_sample sensors.mag (mag ∷ [])
                            ++ (with_sample sensors.range (range ∷ [])
                                ++ with_sample sensors.battery (battery ∷ []))))))))

unfoldable pub select_due_named_telemetry_stream :
    CommManager → ℕ → SampleTimes → Option NamedTelemetryStream
unfolding consider candidates
select_due_named_telemetry_stream m now_us sensors =
    (consider m now_us sensors (record { selected = none; selected_deadline = 2 ^ 64 - 1 })
      (candidates sensors)).selected

unfoldable pub named_telemetry_due : CommManager → ℕ → SampleTimes → Bool
unfolding select_due_named_telemetry_stream
named_telemetry_due m now_us sensors =
    not (is_none (select_due_named_telemetry_stream m now_us sensors))

pub data RealtimeTelemetryPriorityGate : Type 0 where
  due_deadline fresh_sample : RealtimeTelemetryPriorityGate

abbrev pub take_due : CommManager → NamedTelemetryStream → Bool × ℕ → CommManager × Bool
take_due m stream (due, last) = (with_last_us m stream last, due)

unfoldable pub send_imu_if_due : CommManager → ℕ → Option ℕ → CommManager × Bool
unfolding stream_due
send_imu_if_due m now_us none = (m, false)
send_imu_if_due m now_us (some t) =
    if same_time m.telemetry_freshness.imu t
    then (m, false)
    else take_due m imu (stream_due now_us (last_us m imu) (rate_hz m imu))

unfoldable pub send_imu_if_fresh : CommManager → ℕ → Option ℕ → CommManager × Bool
send_imu_if_fresh m now_us none = (m, false)
send_imu_if_fresh m now_us (some t) =
    if same_time m.telemetry_freshness.imu t then (m, false) else (with_last_us m imu now_us, true)

-- The branch of a stream that sends the sample as soon as it is due.
unfoldable pub send_sample : CommManager → NamedTelemetryStream → ℕ → Option ℕ → CommManager × Bool
unfolding stream_due
send_sample m stream now_us none = (m, false)
send_sample m stream now_us (some t) =
    take_due m stream (stream_due now_us (last_us m stream) (rate_hz m stream))

abbrev pub counted : CommManager × Bool → CommManager × Bool
counted (m, due) = (record m { output_raw_imu_count = (m.output_raw_imu_count + 1) % 2 ^ 64 }, due)

unfoldable pub send_output_raw : CommManager → ℕ → Option ℕ → CommManager × Bool
unfolding stream_due
send_output_raw m now_us none = (m, false)
send_output_raw m now_us (some t) = counted (
    if rate_hz m output_raw == 0
    then (m, output_raw_counted m)
    else take_due m output_raw (stream_due now_us (last_us m output_raw) (rate_hz m output_raw)))

abbrev pub send_imu :
    RealtimeTelemetryPriorityGate → CommManager → ℕ → Option ℕ → CommManager × Bool
send_imu due_deadline = send_imu_if_due
send_imu fresh_sample = send_imu_if_fresh

-- The `match` on the stream.
unfoldable pub send_stream :
    RealtimeTelemetryPriorityGate
    → CommManager
    → NamedTelemetryStream
    → ℕ
    → SampleTimes
    → CommManager × Bool
unfolding send_imu_if_due send_imu_if_fresh send_sample send_output_raw
send_stream gate m heartbeat now_us sensors = (with_last_us m heartbeat now_us, true)
send_stream gate m status now_us sensors = (with_last_us m status now_us, true)
send_stream gate m imu now_us sensors = send_imu gate m now_us sensors.imu
send_stream gate m rc now_us sensors = send_sample m rc now_us sensors.rc
send_stream gate m attitude now_us sensors = send_sample m attitude now_us sensors.imu
send_stream gate m output_raw now_us sensors = send_output_raw m now_us sensors.imu
send_stream gate m gnss now_us sensors = send_sample m gnss now_us sensors.gnss
send_stream gate m diff_pressure now_us sensors = send_sample m diff_pressure now_us sensors.pitot
send_stream gate m baro now_us sensors = send_sample m baro now_us sensors.baro
send_stream gate m mag now_us sensors = send_sample m mag now_us sensors.mag
send_stream gate m range now_us sensors = send_sample m range now_us sensors.range
send_stream gate m battery now_us sensors = send_sample m battery now_us sensors.battery

abbrev pub marked : CommManager → NamedTelemetryStream → Option ℕ → CommManager
marked m stream none = m
marked m stream (some t) = record m {
  telemetry_freshness = mark_sent m.telemetry_freshness stream t;
}

abbrev pub mark_if_sent : NamedTelemetryStream → Option ℕ → CommManager × Bool → CommManager × Bool
mark_if_sent stream sample (m, true) = (marked m stream sample, true)
mark_if_sent stream sample (m, false) = (m, false)

unfoldable pub send_selected_with_gate :
    NamedTelemetryStream
    → RealtimeTelemetryPriorityGate
    → CommManager
    → ℕ
    → SampleTimes
    → CommManager × Bool
unfolding send_stream mark_sent telemetry_stream_sample_timestamp
send_selected_with_gate stream gate m now_us sensors =
    mark_if_sent stream (telemetry_stream_sample_timestamp stream sensors)
      (send_stream gate m stream now_us sensors)

abbrev pub send_selected :
    CommManager → ℕ → SampleTimes → Option NamedTelemetryStream → CommManager × Bool
send_selected m now_us sensors none = (m, false)
send_selected m now_us sensors (some stream) =
    send_selected_with_gate stream due_deadline m now_us sensors

unfoldable pub send_one_named_telemetry_stream : CommManager → ℕ → SampleTimes → CommManager × Bool
unfolding select_due_named_telemetry_stream send_selected_with_gate
send_one_named_telemetry_stream m now_us sensors =
    send_selected m now_us sensors (select_due_named_telemetry_stream m now_us sensors)

unfoldable pub send_named_telemetry_stream_if_due :
    CommManager → NamedTelemetryStream → ℕ → SampleTimes → CommManager × Bool
unfolding named_telemetry_stream_deadline send_selected_with_gate
send_named_telemetry_stream_if_due m stream now_us sensors =
    if is_none (named_telemetry_stream_deadline m stream now_us sensors)
    then (m, false)
    else send_selected_with_gate stream due_deadline m now_us sensors

unfoldable pub send_named_telemetry_stream_with_gate :
    CommManager
    → NamedTelemetryStream
    → RealtimeTelemetryPriorityGate
    → ℕ
    → SampleTimes
    → CommManager × Bool
unfolding send_named_telemetry_stream_if_due send_selected_with_gate
send_named_telemetry_stream_with_gate m imu fresh_sample now_us sensors =
    send_selected_with_gate imu fresh_sample m now_us sensors
send_named_telemetry_stream_with_gate m stream gate now_us sensors =
    send_named_telemetry_stream_if_due m stream now_us sensors
