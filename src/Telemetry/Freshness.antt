-- ===== src/Telemetry/Freshness.antt =====
-- A due stream is sent: crates/veloxity_core/src/comm.rs.
use veloxity.Base.{
  ℕ, ◌≡◌, refl, sym, ap, ◌∙◌, Bool, true, false, Bool-cases, inl, inr, not, Option, none, some,
  Option-cases, ◌==◌, if◌then◌else◌, if_elim, arith,
}
use veloxity.Telemetry.Due.{stream_due, stream_due_deadline_us}
use veloxity.Telemetry.Streams.{
  NamedTelemetryStream, heartbeat, status, imu, rc, attitude, output_raw, gnss, diff_pressure, baro,
  mag, range, battery, last_sent, SampleTimes, telemetry_stream_sample_timestamp,
}
use veloxity.Telemetry.Scheduler.{
  CommManager, rate_hz, last_us, output_raw_counted, same_time, rate_deadline, unless_sent,
  named_telemetry_stream_deadline,
}
use veloxity.Telemetry.Send.{
  is_none, select_due_named_telemetry_stream, named_telemetry_due, due_deadline, send_sample,
  send_imu_if_due, send_output_raw, counted, send_stream, mark_if_sent, send_selected_with_gate,
  send_one_named_telemetry_stream,
}
use veloxity.Telemetry.Cadence.{stream_due-deadline}
use veloxity.Telemetry.Selection.{chosen-deadline}

-- A stream with a deadline fires.
fires :
    (now_us last rate d : ℕ)
    → stream_due_deadline_us now_us last rate ≡ some d
    → (stream_due now_us last rate).0 ≡ true
fires now_us last rate d h = not-false (sym (stream_due-deadline now_us last rate) ∙ ap is_none h)
  where
    not-false : {b : Bool} → not b ≡ false → b ≡ true
    not-false h = ground (arith, h)

-- A deadline of a sample is that of its rate, and the sample has not been sent.
unsent :
    (t : ℕ) (sent deadline : Option ℕ) (d : ℕ)
    → unless_sent (some t) sent deadline ≡ some d
    → (same_time sent t ≡ false) × (deadline ≡ some d)
unsent t sent deadline d h = elim (Bool-cases (same_time sent t)) [
  | inl e ↦ absurd (cc (h, ap (λ b. if b then none else deadline) e))
  | inr e ↦ (e, sym (ap (λ b. if b then none else deadline) e) ∙ h)
]

some_when : (b : Bool) (t d : ℕ) → (if b then some t else none) ≡ some d → b ≡ true
some_when true t d h = refl
some_when false t d h = absurd cc

module _ (m : CommManager) (now_us d : ℕ) where
  send_sample-sends :
      (stream : NamedTelemetryStream) (sample sent : Option ℕ)
      → unless_sent sample sent
          (stream_due_deadline_us now_us (last_us m stream) (rate_hz m stream))
        ≡ some d
      → (send_sample m stream now_us sample).1 ≡ true
  unfolding send_sample
  send_sample-sends stream none sent h = absurd cc
  send_sample-sends stream (some t) sent h =
      fires now_us (last_us m stream) (rate_hz m stream) d (unsent t sent _ d h).1

  send_output_raw-sends :
      (sample sent : Option ℕ)
      → unless_sent sample sent (rate_deadline m output_raw now_us) ≡ some d
      → (send_output_raw m now_us sample).1 ≡ true
  unfolding send_output_raw rate_deadline
  send_output_raw-sends none sent h = absurd cc
  send_output_raw-sends (some t) sent h =
      let e = (unsent t sent (rate_deadline m output_raw now_us) d h).1 in
      let by_rate = stream_due_deadline_us now_us (last_us m output_raw) (rate_hz m output_raw) in
      let by_count = if output_raw_counted m then some now_us else none in
      if_elim (λ r. (counted r).1 ≡ true) (rate_hz m output_raw == 0)
        (λ every.
          some_when (output_raw_counted m) now_us d
            (sym (ap (λ b. if b then by_count else by_rate) every) ∙ e))
        (λ limited.
          fires now_us (last_us m output_raw) (rate_hz m output_raw) d
            (sym (ap (λ b. if b then by_count else by_rate) limited) ∙ e))

  send_imu-sends :
      (sample : Option ℕ)
      → unless_sent sample m.telemetry_freshness.imu
          (stream_due_deadline_us now_us (last_us m imu) (rate_hz m imu))
        ≡ some d
      → (send_imu_if_due m now_us sample).1 ≡ true
  unfolding send_imu_if_due
  send_imu-sends none h = absurd cc
  send_imu-sends (some t) h =
      let (new, e) = unsent t m.telemetry_freshness.imu _ d h in
      rw new (fires now_us (last_us m imu) (rate_hz m imu) d e)

  send_stream-sends :
      (stream : NamedTelemetryStream) (sensors : SampleTimes)
      → named_telemetry_stream_deadline m stream now_us sensors ≡ some d
      → (send_stream due_deadline m stream now_us sensors).1 ≡ true
  unfolding send_stream named_telemetry_stream_deadline rate_deadline last_sent
      telemetry_stream_sample_timestamp
  send_stream-sends heartbeat sensors h = refl
  send_stream-sends status sensors h = refl
  send_stream-sends imu sensors h = send_imu-sends sensors.imu h
  send_stream-sends output_raw sensors h =
      send_output_raw-sends sensors.imu m.telemetry_freshness.output_raw h
  send_stream-sends rc sensors h = send_sample-sends rc sensors.rc m.telemetry_freshness.rc h
  send_stream-sends attitude sensors h =
      send_sample-sends attitude sensors.imu m.telemetry_freshness.attitude h
  send_stream-sends gnss sensors h =
      send_sample-sends gnss sensors.gnss m.telemetry_freshness.gnss h
  send_stream-sends diff_pressure sensors h =
      send_sample-sends diff_pressure sensors.pitot m.telemetry_freshness.diff_pressure h
  send_stream-sends baro sensors h =
      send_sample-sends baro sensors.baro m.telemetry_freshness.baro h
  send_stream-sends mag sensors h = send_sample-sends mag sensors.mag m.telemetry_freshness.mag h
  send_stream-sends range sensors h =
      send_sample-sends range sensors.range m.telemetry_freshness.range h
  send_stream-sends battery sensors h =
      send_sample-sends battery sensors.battery m.telemetry_freshness.battery h

pub mark_if_sent-sent :
    (stream : NamedTelemetryStream) (sample : Option ℕ) (r : CommManager × Bool)
    → (mark_if_sent stream sample r).1 ≡ r.1
mark_if_sent-sent stream sample (m, true) = refl
mark_if_sent-sent stream sample (m, false) = refl

-- A call sends a stream exactly when one is due.
pub send_one-sends :
    (m : CommManager) (now_us : ℕ) (sensors : SampleTimes)
    → (send_one_named_telemetry_stream m now_us sensors).1 ≡ named_telemetry_due m now_us sensors
unfolding send_one_named_telemetry_stream named_telemetry_due send_selected_with_gate
send_one-sends m now_us sensors =
    elim (Option-cases (select_due_named_telemetry_stream m now_us sensors)) [
      | inl e ↦ rw e refl
      | inr (chosen, e) ↦
          let (d, h) = chosen-deadline m now_us sensors chosen e in
          rw e (
            mark_if_sent-sent chosen (telemetry_stream_sample_timestamp chosen sensors)
              (send_stream due_deadline m chosen now_us sensors)
            ∙ send_stream-sends m now_us d chosen sensors h)
    ]
