-- ===== src/Telemetry/Cadence.antt =====
-- The cadence of a stream, and the agreement of its two tests: crates/veloxity_core/src/comm.rs.
use veloxity.Base.{
  ℕ, zero, suc, ◌+◌, ◌-◌, ◌*◌, ◌/◌, ◌^◌, ◌<◌, ◌≤◌, ◌≡◌, ap, ◌∙◌, Bool, not, leb, ◌==◌, if_elim,
  arith,
}
use veloxity.Telemetry.Due.{
  stream_due, stream_due_deadline_us, interval_us, saturate_u64, telemetry_rate_disabled,
}
use veloxity.Telemetry.Send.{is_none}

-- A stream is due exactly when it has a deadline.
pub stream_due-deadline :
    (now_us last_us rate_hz : ℕ)
    → is_none (stream_due_deadline_us now_us last_us rate_hz)
      ≡ not (stream_due now_us last_us rate_hz).0
unfolding stream_due stream_due_deadline_us
stream_due-deadline now_us last_us rate_hz = ground arith

-- A whole number of intervals fits, and what is left is less than one.
whole_intervals :
    (elapsed interval : ℕ)
    → 0 < interval
    → (elapsed / interval * interval ≤ elapsed)
      × (elapsed < elapsed / interval * interval + interval)
whole_intervals elapsed interval h = (omega arith, omega arith)

positive_quotient :
    (quotient rate_hz : ℕ)
    → 1000000 < quotient * rate_hz + rate_hz
    → rate_hz < telemetry_rate_disabled
    → 0 < quotient
positive_quotient zero rate_hz h below = absurd (omega (arith, h, below))
positive_quotient (suc n) rate_hz h below = omega arith

saturate_u64_lem : (n : ℕ) → n < 2 ^ 64 → saturate_u64 n ≡ n
saturate_u64_lem n h = ground (arith, h)

interval_positive :
    (rate_hz : ℕ) → 0 < rate_hz → rate_hz < telemetry_rate_disabled → 0 < interval_us rate_hz
interval_positive rate_hz h below =
    positive_quotient (interval_us rate_hz) rate_hz (whole_intervals 1000000 rate_hz h).1 below

-- The period of a stream with a rate stays a whole number of intervals after where it was, is never in
-- the future and is less than an interval old, whether the stream was due or not; so a late turn
-- neither shifts the cadence nor lets the stream catch up by a burst.
pub stream_due_keeps_cadence :
    (now_us last_us rate_hz : ℕ)
    → 0 < rate_hz
    → rate_hz < telemetry_rate_disabled
    → 0 < last_us
    → last_us ≤ now_us
    → now_us < 2 ^ 64
    → let last' = (stream_due now_us last_us rate_hz).1 in
      (last' ≤ now_us)
      × (now_us < last' + interval_us rate_hz)
      × (intervals : ℕ) × (last' ≡ last_us + intervals * interval_us rate_hz)
unfolding stream_due
stream_due_keeps_cadence now_us last_us rate_hz h below started past wide =
    let interval = interval_us rate_hz in
    let fits = whole_intervals (now_us - last_us) interval (interval_positive rate_hz h below) in
    let P : Bool × ℕ → Type 0 = λ r.
      (r.1 ≤ now_us)
      × (now_us < r.1 + interval)
      × (intervals : ℕ) × (r.1 ≡ last_us + intervals * interval) in
    if_elim P (rate_hz == telemetry_rate_disabled) (λ e. absurd (ground (arith, e, below)))
      (λ enabled.
        if_elim P (rate_hz == 0) (λ e. absurd (ground (arith, e, h)))
          (λ limited.
            if_elim P (last_us == 0) (λ e. absurd (ground (arith, e, started)))
              (λ running.
                if_elim P (leb interval (now_us - last_us))
                  (λ due.
                    let whole = (now_us - last_us) / interval * interval in
                    let e : saturate_u64 (last_us + saturate_u64 whole) ≡ last_us + whole =
                      ap (λ n. saturate_u64 (last_us + n))
                        (saturate_u64_lem whole (omega (arith, fits.0, wide)))
                      ∙ saturate_u64_lem (last_us + whole) (omega (arith, fits.0, past, wide)) in
                    (
                      omega (arith, e, fits.0, past),
                      omega (arith, e, fits.1, past),
                      (now_us - last_us) / interval,
                      e,
                    ))
                  (λ early. (past, ground (arith, early), 0, omega arith)))))
