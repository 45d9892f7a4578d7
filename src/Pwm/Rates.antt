-- ===== src/Pwm/Rates.antt =====
-- The DShot frame and the output protocol of a rate: crates/veloxity_core/src/pwm.rs.
use veloxity.Base.{
  ℕ, ◌+◌, ◌-◌, ◌*◌, ◌/◌, ◌%◌, ◌^◌, Bool, true, false, not, ◌&&◌, ◌||◌, ◌==◌, min, bit_xor,
  if◌then◌else◌,
}
use veloxity.Base.Int.{pos}
use veloxity.Float.{Float, nought}
use veloxity.Pwm.Driver.{Result, ok, err, invalid_rate}

pub data PwmOutputProtocol : Type 0 where
  standard_pwm dshot : PwmOutputProtocol

pub record DshotCommand : Type 0 where
  pub throttle : ℕ
  pub telemetry : Bool

unfoldable pub stop : DshotCommand
stop = record { throttle = 0; telemetry = false }

abbrev pub as_u16 : Bool → ℕ
as_u16 true = 1
as_u16 false = 0

-- Masks are remainders, and shifts are by powers of two.
unfoldable pub frame_value : DshotCommand → ℕ
frame_value command = (command.throttle % 0x800) * 2 + as_u16 command.telemetry

unfoldable pub frame_crc : ℕ → ℕ
frame_crc value = bit_xor (bit_xor value (value / 2 ^ 4)) (value / 2 ^ 8) % 2 ^ 4

unfoldable pub frame : DshotCommand → ℕ
unfolding frame_value frame_crc
frame command = let value = frame_value command in (value * 2 ^ 4) % 2 ^ 16 + frame_crc value

-- The bit that is sent `bit_index`-th, the highest first.
unfoldable pub bit_is_high : ℕ → ℕ → Bool
bit_is_high word bit_index = ((word / 2 ^ (15 - min bit_index 15)) % 2) == 1

module _ {R : Type 0} ⦃fr : Float R⦄ (is_finite : R → Bool) where
  unfoldable pub output_protocol_for_rate : R → Result PwmOutputProtocol
  output_protocol_for_rate rate_hz =
      if not (is_finite rate_hz) || fr.lt rate_hz nought
      then err invalid_rate
      else if fr.le rate_hz (fr.decimal (pos 490) 0)
      then ok standard_pwm
      else if fr.le (fr.decimal (pos 150000) 0) rate_hz
          && fr.le rate_hz (fr.decimal (pos 1200000) 0)
      then ok dshot
      else err invalid_rate

  abbrev effective : R → Result PwmOutputProtocol → Result R
  effective rate_hz (ok standard_pwm) =
      ok (if fr.eq rate_hz nought then fr.decimal (pos 50) 0 else rate_hz)
  effective rate_hz (ok dshot) = ok rate_hz
  effective rate_hz (err e) = err e

  unfoldable pub effective_output_rate_hz : R → Result R
  unfolding output_protocol_for_rate
  effective_output_rate_hz rate_hz = effective rate_hz (output_protocol_for_rate rate_hz)
