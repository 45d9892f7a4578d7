-- ===== src/Telemetry/Candidates.antt =====
-- A stream with a deadline is among those that crates/veloxity_core/src/comm.rs considers.
use veloxity.Base.{ℕ, ◌≡◌, refl, sym, subst, List, [], ◌∷◌, ◌++◌, Option, none, some}
use mathlib.Core.List.{Memᴰ}
use mathlib.Core.List.Memᴰ.{head, tail, append_left, append_right}
use veloxity.Telemetry.Streams.{
  NamedTelemetryStream, heartbeat, status, imu, rc, attitude, output_raw, gnss, diff_pressure, baro,
  mag, range, battery, SampleTimes, telemetry_stream_sample_timestamp,
}
use veloxity.Telemetry.Scheduler.{CommManager, unless_sent, named_telemetry_stream_deadline}
use veloxity.Telemetry.Send.{with_sample, candidates}

skip :
    {stream : NamedTelemetryStream} (o : Option ℕ) (streams rest : List NamedTelemetryStream)
    → Memᴰ stream rest
    → Memᴰ stream (with_sample o streams ++ rest)
skip o streams rest h = append_right (with_sample o streams) h

here :
    {stream : NamedTelemetryStream} (o : Option ℕ) (streams rest : List NamedTelemetryStream)
    → (t : ℕ) × (o ≡ some t)
    → Memᴰ stream streams
    → Memᴰ stream (with_sample o streams ++ rest)
here {stream} o streams rest (t, e) h =
    append_left rest (subst (λ o'. Memᴰ stream (with_sample o' streams)) (sym e) h)

only :
    {stream : NamedTelemetryStream} (o : Option ℕ) (streams : List NamedTelemetryStream)
    → (t : ℕ) × (o ≡ some t)
    → Memᴰ stream streams
    → Memᴰ stream (with_sample o streams)
only {stream} o streams (t, e) h = subst (λ o'. Memᴰ stream (with_sample o' streams)) (sym e) h

abbrev imu_streams : List NamedTelemetryStream
imu_streams = imu ∷ attitude ∷ output_raw ∷ []

-- The candidates from a sample on.
abbrev from_battery : SampleTimes → List NamedTelemetryStream
from_battery sensors = with_sample sensors.battery (battery ∷ [])

abbrev from_range : SampleTimes → List NamedTelemetryStream
from_range sensors = with_sample sensors.range (range ∷ []) ++ from_battery sensors

abbrev from_mag : SampleTimes → List NamedTelemetryStream
from_mag sensors = with_sample sensors.mag (mag ∷ []) ++ from_range sensors

abbrev from_baro : SampleTimes → List NamedTelemetryStream
from_baro sensors = with_sample sensors.baro (baro ∷ []) ++ from_mag sensors

abbrev from_pitot : SampleTimes → List NamedTelemetryStream
from_pitot sensors = with_sample sensors.pitot (diff_pressure ∷ []) ++ from_baro sensors

abbrev from_gnss : SampleTimes → List NamedTelemetryStream
from_gnss sensors = with_sample sensors.gnss (gnss ∷ []) ++ from_pitot sensors

abbrev from_rc : SampleTimes → List NamedTelemetryStream
from_rc sensors = with_sample sensors.rc (rc ∷ []) ++ from_gnss sensors

-- A deadline that depends on a sample has one.
sampled :
    (sample sent deadline : Option ℕ) (d : ℕ)
    → unless_sent sample sent deadline ≡ some d
    → (t : ℕ) × (sample ≡ some t)
sampled none sent deadline d h = absurd cc
sampled (some t) sent deadline d h = (t, refl)

module _ (m : CommManager) (now_us : ℕ) (sensors : SampleTimes) where
  pub candidate :
      (stream : NamedTelemetryStream) (d : ℕ)
      → named_telemetry_stream_deadline m stream now_us sensors ≡ some d
      → Memᴰ stream (candidates sensors)
  unfolding candidates named_telemetry_stream_deadline telemetry_stream_sample_timestamp
  candidate heartbeat d h = head refl
  candidate status d h = tail (head refl)
  candidate imu d h =
      tail (tail (here sensors.imu imu_streams (from_rc sensors) (sampled _ _ _ d h) (head refl)))
  candidate attitude d h =
      tail (
        tail
          (here sensors.imu imu_streams (from_rc sensors) (sampled _ _ _ d h) (tail (head refl))))
  candidate output_raw d h = tail (
      tail (
        here sensors.imu imu_streams (from_rc sensors) (sampled _ _ _ d h)
          (tail (tail (head refl)))))
  candidate rc d h = tail (
      tail (
        skip sensors.imu imu_streams (from_rc sensors)
          (here sensors.rc (rc ∷ []) (from_gnss sensors) (sampled _ _ _ d h) (head refl))))
  candidate gnss d h = tail (
      tail (
        skip sensors.imu imu_streams (from_rc sensors) (
          skip sensors.rc (rc ∷ []) (from_gnss sensors)
            (here sensors.gnss (gnss ∷ []) (from_pitot sensors) (sampled _ _ _ d h) (head refl)))))
  candidate diff_pressure d h = tail (
      tail (
        skip sensors.imu imu_streams (from_rc sensors) (
          skip sensors.rc (rc ∷ []) (from_gnss sensors) (
            skip sensors.gnss (gnss ∷ []) (from_pitot sensors) (
              here sensors.pitot (diff_pressure ∷ []) (from_baro sensors) (sampled _ _ _ d h)
                (head refl))))))
  candidate baro d h = tail (
      tail (
        skip sensors.imu imu_streams (from_rc sensors) (
          skip sensors.rc (rc ∷ []) (from_gnss sensors) (
            skip sensors.gnss (gnss ∷ []) (from_pitot sensors) (
              skip sensors.pitot (diff_pressure ∷ []) (from_baro sensors) (
                here sensors.baro (baro ∷ []) (from_mag sensors) (sampled _ _ _ d h)
                  (head refl)))))))
  candidate mag d h = tail (
      tail (
        skip sensors.imu imu_streams (from_rc sensors) (
          skip sensors.rc (rc ∷ []) (from_gnss sensors) (
            skip sensors.gnss (gnss ∷ []) (from_pitot sensors) (
              skip sensors.pitot (diff_pressure ∷ []) (from_baro sensors) (
                skip sensors.baro (baro ∷ []) (from_mag sensors) (
                  here sensors.mag (mag ∷ []) (from_range sensors) (sampled _ _ _ d h)
                    (head refl))))))))
  candidate range d h = tail (
      tail (
        skip sensors.imu imu_streams (from_rc sensors) (
          skip sensors.rc (rc ∷ []) (from_gnss sensors) (
            skip sensors.gnss (gnss ∷ []) (from_pitot sensors) (
              skip sensors.pitot (diff_pressure ∷ []) (from_baro sensors) (
                skip sensors.baro (baro ∷ []) (from_mag sensors) (
                  skip sensors.mag (mag ∷ []) (from_range sensors) (
                    here sensors.range (range ∷ []) (from_battery sensors) (sampled _ _ _ d h)
                      (head refl)))))))))
  candidate battery d h = tail (
      tail (
        skip sensors.imu imu_streams (from_rc sensors) (
          skip sensors.rc (rc ∷ []) (from_gnss sensors) (
            skip sensors.gnss (gnss ∷ []) (from_pitot sensors) (
              skip sensors.pitot (diff_pressure ∷ []) (from_baro sensors) (
                skip sensors.baro (baro ∷ []) (from_mag sensors) (
                  skip sensors.mag (mag ∷ []) (from_range sensors) (
                    skip sensors.range (range ∷ []) (from_battery sensors)
                      (only sensors.battery (battery ∷ []) (sampled _ _ _ d h) (head refl))))))))))
