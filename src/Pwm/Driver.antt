-- ===== src/Pwm/Driver.antt =====
-- The trait `PwmDriver` of crates/veloxity_core/src/pwm.rs, which the platforms implement, and the safe
-- commands of a disarmed vehicle. `D` is a driver with the board that it writes to, and `R` the
-- vehicle's float.
use veloxity.Base.{
  ℕ, zero, suc, ◌<◌, ◌≡◌, Bool, true, false, ◌&&◌, List, [], ◌∷◌, map, ltb, ◌==◌, get_or,
  if◌then◌else◌,
}
use veloxity.Base.Int.{pos}
use veloxity.Float.{Float, nought}

pub data PwmError : Type 0 where
  channel_out_of_range generic_error invalid_rate unsupported_protocol : PwmError

pub data Result (A : Type 0) : Type 0 where
  ok : A → Result A
  err : PwmError → Result A

abbrev pub is_ok : {A : Type 0} → Result A → Bool
is_ok (ok a) = true
is_ok (err e) = false

pub data MixerOutputType : Type 0 where
  aux motor servo gpio : MixerOutputType

abbrev pub pwm_output_channels : ℕ
pwm_output_channels = 14

-- A method returns the changed driver first.
pub record PwmDriver (R D : Type 0) : Type 0 where
  pub len : D → ℕ
  pub enable : D → ℕ → D × Result (Unit {0})
  pub disable : D → ℕ → D × Result (Unit {0})
  pub enable_all : D → D × Result (Unit {0})
  pub disable_all : D → D
  pub flush : D → D
  pub send_commands : D → List R → D × Result (Unit {0})
  pub configure_output_rates : D → List R → D × Result (Unit {0})

-- Which channels are on. A call for one channel changes it alone, and nothing when it fails; a flush
-- changes none.
pub record IsDriver {R D : Type 0} (dr : PwmDriver R D) : Type 0 where
  pub is_on : D → ℕ → Bool
  pub on-enable :
      (d : D) (channel c : ℕ)
      → is_on (dr.enable d channel).0 c
        ≡ (if is_ok (dr.enable d channel).1 && channel == c then true else is_on d c)
  pub on-disable :
      (d : D) (channel c : ℕ)
      → is_on (dr.disable d channel).0 c
        ≡ (if is_ok (dr.disable d channel).1 && channel == c then false else is_on d c)
  pub on-enable_all :
      (d : D) (c : ℕ)
      → is_ok (dr.enable_all d).1 ≡ true
      → c < dr.len d
      → is_on (dr.enable_all d).0 c ≡ true
  pub on-disable_all : (d : D) (c : ℕ) → is_on (dr.disable_all d) c ≡ false
  pub on-flush : (d : D) (c : ℕ) → is_on (dr.flush d) c ≡ is_on d c

-- The numbers from `start` on.
abbrev pub up_from : ℕ → ℕ → List ℕ
up_from start zero = []
up_from start (suc n) = start ∷ up_from (suc start) n

module _ {F R : Type 0} ⦃fl : Float F⦄ (from_f32 : F → R) where
  unfoldable pub safe_disarmed_command : MixerOutputType → R
  safe_disarmed_command motor = from_f32 nought
  safe_disarmed_command gpio = from_f32 nought
  safe_disarmed_command aux = from_f32 (fl.decimal (pos 5) 1)
  safe_disarmed_command servo = from_f32 (fl.decimal (pos 5) 1)

  -- The commands of `send_disarmed_commands`, for a driver with `len` channels.
  unfoldable pub disarmed_commands : ℕ → List MixerOutputType → List R
  unfolding safe_disarmed_command
  disarmed_commands len output_types =
      map
        (λ channel.
          if ltb channel len
          then safe_disarmed_command (get_or output_types channel aux)
          else from_f32 (fl.decimal (pos 5) 1))
        (up_from 0 pwm_output_channels)

  unfoldable pub send_disarmed_commands :
      {D : Type 0} → PwmDriver R D → D → List MixerOutputType → D × Result (Unit {0})
  unfolding disarmed_commands
  send_disarmed_commands dr pwm output_types =
      dr.send_commands pwm (disarmed_commands (dr.len pwm) output_types)
