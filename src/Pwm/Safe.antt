-- ===== src/Pwm/Safe.antt =====
-- The bounds of the composed PWM outputs, and what reaches the driver of a disarmed vehicle:
-- crates/veloxity_core/src/pwm/output_sync.rs.
use veloxity.Base.{
  ℕ, zero, suc, ◌+◌, ◌<◌, ◌≡◌, sym, ap, ◌∙◌, subst, Bool, false, not, ◌&&◌, List, map, Option, none,
  some, get_or, if_elim, arith,
}
use veloxity.Base.Int.{pos}
use veloxity.Float.{Float, nought, unit}
use veloxity.Params.{
  Params, get_by_id, int_or, float_or, param_motor_idle_throttle, param_channel_output_mask,
}
use veloxity.StateMachine.Manager.{StateManager, is_armed}
use veloxity.Pwm.Driver.{
  MixerOutputType, aux, gpio, pwm_output_channels, up_from, safe_disarmed_command,
}
use veloxity.Pwm.Outputs.{
  RosflightAuxCmdType, RosflightAuxCmdMsg, channel_output_enabled, channel_source, output_for,
  raw_output_for_type, compose_pwm_outputs,
}

get_or-map-up_from :
    {A : Type 0} (f : ℕ → A) (start n c : ℕ) (d : A)
    → c < n
    → get_or (map f (up_from start n)) c d ≡ f (start + c)
get_or-map-up_from f start zero c d h = absurd (omega arith)
get_or-map-up_from f start (suc n) zero d h = ap f (omega arith)
get_or-map-up_from f start (suc n) (suc c) d h =
    get_or-map-up_from f (suc start) n c d (omega arith) ∙ ap f (omega arith)

-- The type of the aux command for a channel, disabled without one.
abbrev pub aux_type : {F : Type 0} → Option (RosflightAuxCmdMsg F) → ℕ → RosflightAuxCmdType
aux_type none c = RosflightAuxCmdType.disabled
aux_type (some msg) c = get_or msg.type_array c RosflightAuxCmdType.disabled

module _ {F R : Type 0} ⦃fl : Float F⦄ ⦃fr : Float R⦄ (from_f32 : F → R) where
  channel-compose_pwm_outputs :
      (commands : List R) (types : List MixerOutputType)
      (aux_command : Option (RosflightAuxCmdMsg F)) (state : StateManager) (params : Params F)
      (c : ℕ) (d : R)
      → c < pwm_output_channels
      → get_or (compose_pwm_outputs from_f32 commands types aux_command state params) c d
        ≡ output_for from_f32 (channel_source from_f32 commands types aux_command c) state params c
  unfolding compose_pwm_outputs
  channel-compose_pwm_outputs commands types aux_command state params c d h =
      get_or-map-up_from
        (λ channel.
          output_for from_f32 (channel_source from_f32 commands types aux_command channel) state
            params channel)
        0 pwm_output_channels c d h
      ∙ ap
          (λ channel.
            output_for from_f32 (channel_source from_f32 commands types aux_command channel) state
              params channel)
          (omega arith)

  -- Neither above 1.0 nor below 0.0.
  abbrev pub InBounds : R → Type 0
  InBounds v = (fr.lt (from_f32 unit) v ≡ false) × (fr.lt v (from_f32 nought) ≡ false)

  raw_motor-InBounds :
      (value idle : R) (state : StateManager) (spin : Bool)
      → InBounds (from_f32 unit)
      → InBounds (from_f32 nought)
      → InBounds idle
      → InBounds (raw_output_for_type from_f32 MixerOutputType.motor value state idle spin)
  unfolding raw_output_for_type
  raw_motor-InBounds value idle state spin top bottom kept =
      if_elim InBounds (not (is_armed state)) (λ e. bottom)
        (λ armed.
          if_elim InBounds (fr.lt (from_f32 unit) value) (λ e. top)
            (λ low.
              if_elim InBounds (fr.lt value idle && spin) (λ e. kept)
                (λ spinning.
                  if_elim InBounds (fr.lt value (from_f32 nought)) (λ e. bottom)
                    (λ high. (low, high)))))

  output_for-InBounds :
      (value : R) (state : StateManager) (params : Params F) (c : ℕ)
      → InBounds (from_f32 unit)
      → InBounds (from_f32 nought)
      → InBounds (from_f32 (float_or (get_by_id params param_motor_idle_throttle) nought))
      → InBounds (output_for from_f32 (MixerOutputType.motor, value) state params c)
  unfolding output_for safe_disarmed_command
  output_for-InBounds value state params c top bottom kept =
      if_elim InBounds (not (is_armed state)) (λ e. bottom)
        (λ armed.
          if_elim InBounds
            (not (
              channel_output_enabled (int_or (get_by_id params param_channel_output_mask) (pos 0))
                c))
            (λ e. bottom) (λ enabled. raw_motor-InBounds value _ state _ top bottom kept))

  -- The safe value of a channel from the type that the mixer gives it and, where it leaves the channel
  -- free, the type of the aux command: 0.0 for a motor or a GPIO, and 0.5 for a servo or none.
  abbrev pub safe_value : MixerOutputType → RosflightAuxCmdType → R
  safe_value MixerOutputType.motor _ = from_f32 (fl.decimal (pos 0) 0)
  safe_value gpio _ = from_f32 (fl.decimal (pos 0) 0)
  safe_value MixerOutputType.servo _ = from_f32 (fl.decimal (pos 5) 1)
  safe_value aux RosflightAuxCmdType.motor = from_f32 (fl.decimal (pos 0) 0)
  safe_value aux RosflightAuxCmdType.servo = from_f32 (fl.decimal (pos 5) 1)
  safe_value aux RosflightAuxCmdType.disabled = from_f32 (fl.decimal (pos 5) 1)

  -- A motor's output is on every branch neither above 1.0 nor below 0.0, where the literals 1.0 and
  -- 0.0 and the idle throttle of the parameters are neither.
  pub motor_bounds :
      (commands : List R) (types : List MixerOutputType)
      (aux_command : Option (RosflightAuxCmdMsg F)) (state : StateManager) (params : Params F)
      (c : ℕ) (d : R)
      → c < pwm_output_channels
      → (channel_source from_f32 commands types aux_command c).0 ≡ MixerOutputType.motor
      → InBounds (from_f32 unit)
      → InBounds (from_f32 nought)
      → InBounds (from_f32 (float_or (get_by_id params param_motor_idle_throttle) nought))
      → InBounds (get_or (compose_pwm_outputs from_f32 commands types aux_command state params) c d)
  motor_bounds commands types aux_command state params c d h is_motor top bottom kept =
      let source = channel_source from_f32 commands types aux_command c in
      subst InBounds
        (sym (
          channel-compose_pwm_outputs commands types aux_command state params c d h
          ∙ ap (λ t. output_for from_f32 (t, source.1) state params c) is_motor))
        (output_for-InBounds source.1 state params c top bottom kept)
