-- ===== src/Pwm/Outputs.antt =====
-- `compose_pwm_outputs` and `write_pwm_commands` of crates/veloxity_core/src/pwm/output_sync.rs. The
-- vehicle's float `R` is made from an f32 by `from_f32`.
use veloxity.Base.{
  ℕ, Bool, true, false, not, ◌&&◌, ◌||◌, List, map, Option, none, some, ltb, get_or, if◌then◌else◌,
}
use veloxity.Base.Int.{ℤ, pos, negsuc, as_u32, eqb_ℤ, ltb_ℤ}
use veloxity.Float.{Float, nought, unit}
use veloxity.Params.{
  Params, get_by_id, is_nonzero_int, int_or, float_or, param_motor_idle_throttle,
  param_spin_motors_when_armed, param_channel_output_mask,
}
use veloxity.StateMachine.Manager.{StateManager, is_armed}
use veloxity.Pwm.Driver.{
  Result, ok, err, MixerOutputType, aux, gpio, pwm_output_channels, PwmDriver, up_from,
  safe_disarmed_command, send_disarmed_commands,
}
use veloxity.Pwm.Sync.{bits_of, PwmOutputState, is_enabled}

pub data RosflightAuxCmdType : Type 0 where
  disabled servo motor : RosflightAuxCmdType

pub record RosflightAuxCmdMsg (F : Type 0) : Type 0 where
  pub type_array : List RosflightAuxCmdType
  pub aux_cmd_array : List F

unfoldable pub channel_output_enabled : ℤ → ℕ → Bool
channel_output_enabled mask channel =
    eqb_ℤ mask (negsuc 0)
    || (not (ltb_ℤ mask (pos 0)) && ltb channel 32 && bits_of (as_u32 mask) channel)

abbrev is_aux : MixerOutputType → Bool
is_aux aux = true
is_aux _ = false

abbrev pub result_true : {D : Type 0} → D × Result (Unit {0}) → D × Result Bool
result_true (pwm, ok _) = (pwm, ok true)
result_true (pwm, err e) = (pwm, err e)

module _ {F R : Type 0} ⦃fl : Float F⦄ ⦃fr : Float R⦄ (from_f32 : F → R) where
  unfoldable pub aux_value : RosflightAuxCmdType → F → MixerOutputType × R
  aux_value RosflightAuxCmdType.disabled v = (aux, from_f32 nought)
  aux_value RosflightAuxCmdType.servo v = (MixerOutputType.servo, from_f32 v)
  aux_value RosflightAuxCmdType.motor v = (MixerOutputType.motor, from_f32 v)

  unfoldable pub aux_output_for_channel : Option (RosflightAuxCmdMsg F) → ℕ → MixerOutputType × R
  unfolding aux_value
  aux_output_for_channel none channel = (aux, from_f32 nought)
  aux_output_for_channel (some msg) channel =
      aux_value (get_or msg.type_array channel RosflightAuxCmdType.disabled)
        (get_or msg.aux_cmd_array channel nought)

  unfoldable pub raw_output_for_type : MixerOutputType → R → StateManager → R → Bool → R
  raw_output_for_type aux value state idle spin = from_f32 nought
  raw_output_for_type MixerOutputType.servo value state idle spin =
      fr.add
        (fr.mul (fr.clamp value (from_f32 (fl.decimal (negsuc 0) 0)) (from_f32 unit))
          (from_f32 (fl.decimal (pos 5) 1)))
        (from_f32 (fl.decimal (pos 5) 1))
  raw_output_for_type gpio value state idle spin =
      if fr.lt (from_f32 nought) value then from_f32 unit else from_f32 nought
  raw_output_for_type MixerOutputType.motor value state idle spin =
      if not (is_armed state)
      then from_f32 nought
      else if fr.lt (from_f32 unit) value
      then from_f32 unit
      else if fr.lt value idle && spin
      then idle
      else if fr.lt value (from_f32 nought)
      then from_f32 nought
      else value

  -- The type and value of a channel: the aux command's where the mixer leaves the channel free.
  unfoldable pub channel_source :
      List R → List MixerOutputType → Option (RosflightAuxCmdMsg F) → ℕ → MixerOutputType × R
  unfolding aux_output_for_channel
  channel_source commands types aux_command channel =
      if is_aux (get_or types channel aux)
      then aux_output_for_channel aux_command channel
      else (get_or types channel aux, get_or commands channel (from_f32 nought))

  unfoldable pub output_for : MixerOutputType × R → StateManager → Params F → ℕ → R
  unfolding safe_disarmed_command channel_output_enabled raw_output_for_type
  output_for (output_type, value) state params channel =
      if not (is_armed state)
      then safe_disarmed_command from_f32 output_type
      else if not (
          channel_output_enabled (int_or (get_by_id params param_channel_output_mask) (pos 0))
            channel)
      then safe_disarmed_command from_f32 output_type
      else raw_output_for_type output_type value state
          (from_f32 (float_or (get_by_id params param_motor_idle_throttle) nought))
          (is_nonzero_int (get_by_id params param_spin_motors_when_armed))

  unfoldable pub compose_pwm_outputs :
      List R
      → List MixerOutputType
      → Option (RosflightAuxCmdMsg F)
      → StateManager
      → Params F
      → List R
  unfolding channel_source output_for
  compose_pwm_outputs commands types aux_command state params =
      map
        (λ channel.
          output_for (channel_source commands types aux_command channel) state params channel)
        (up_from 0 pwm_output_channels)

  unfoldable pub write_pwm_commands :
      {D : Type 0}
      → PwmDriver R D
      → D
      → PwmOutputState
      → List R
      → List MixerOutputType
      → StateManager
      → D × Result Bool
  unfolding is_enabled send_disarmed_commands
  write_pwm_commands dr pwm output commands types state =
      if not (is_enabled output)
      then (pwm, ok false)
      else if is_armed state
      then result_true (dr.send_commands pwm commands)
      else result_true (send_disarmed_commands from_f32 dr pwm types)
