-- ===== src/Telemetry/Due.antt =====
-- When a stream with a rate is due: crates/veloxity_core/src/comm.rs. Times are u64 in µs, rates u16.
use veloxity.Base.{
  ℕ, ◌+◌, ◌-◌, ◌*◌, ◌/◌, ◌^◌, Bool, true, false, Option, none, some, min, leb, ◌==◌, if◌then◌else◌,
}

abbrev pub saturate_u64 : ℕ → ℕ
saturate_u64 n = min n (2 ^ 64 - 1)

abbrev pub telemetry_rate_disabled : ℕ
telemetry_rate_disabled = 2 ^ 16 - 1

abbrev pub interval_us : ℕ → ℕ
interval_us rate_hz = 1000000 / rate_hz

-- Whether the stream is due, and the time of its period that it is left with.
unfoldable pub stream_due : ℕ → ℕ → ℕ → Bool × ℕ
stream_due now_us last_us rate_hz =
    if rate_hz == telemetry_rate_disabled
    then (false, last_us)
    else if rate_hz == 0
    then (true, if last_us == 0 then now_us else last_us)
    else if last_us == 0
    then (true, now_us)
    else if leb (interval_us rate_hz) (now_us - last_us)
    then (
      true,
      saturate_u64
          (last_us + saturate_u64 ((now_us - last_us) / interval_us rate_hz * interval_us rate_hz)),
    )
    else (false, last_us)

unfoldable pub stream_due_deadline_us : ℕ → ℕ → ℕ → Option ℕ
stream_due_deadline_us now_us last_us rate_hz =
    if rate_hz == telemetry_rate_disabled
    then none
    else if rate_hz == 0
    then some (if last_us == 0 then 0 else now_us)
    else if last_us == 0
    then some 0
    else if leb (interval_us rate_hz) (now_us - last_us)
    then some (saturate_u64 (last_us + interval_us rate_hz))
    else none

unfoldable pub fixed_rate_due : ℕ → ℕ → ℕ → Bool
fixed_rate_due now_us last_us rate_hz =
    if rate_hz == telemetry_rate_disabled
    then false
    else if rate_hz == 0
    then true
    else leb (interval_us rate_hz) (now_us - last_us)

unfoldable pub fixed_rate_due_deadline_us : ℕ → ℕ → ℕ → Option ℕ
fixed_rate_due_deadline_us now_us last_us rate_hz =
    if rate_hz == telemetry_rate_disabled
    then none
    else if rate_hz == 0
    then some now_us
    else if leb (interval_us rate_hz) (now_us - last_us)
    then some (saturate_u64 (last_us + interval_us rate_hz))
    else none
