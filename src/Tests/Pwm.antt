-- ===== src/Tests/Pwm.antt =====
-- The theorems on the PWM outputs and the control pipeline at concrete inputs.
use veloxity.Base.{
  ℕ, ◌≡◌, refl, Bool, true, false, ◌&&◌, List, [], ◌∷◌, none, some, ltb, ◌==◌, get_or, arith,
  if◌then◌else◌,
}
use veloxity.Base.Int.{ℤ, pos, negsuc}
use veloxity.Params.{
  get_by_id, Params, float, int, param_motor_idle_throttle, param_channel_output_mask,
}
use veloxity.StateMachine.Machine.{preflight, armed}
use veloxity.StateMachine.Flags.{no_error}
use veloxity.StateMachine.Manager.{is_armed}
use veloxity.Command.Manager
use veloxity.Pwm.Driver.{
  PwmDriver, IsDriver, Result, ok, err, channel_out_of_range, MixerOutputType, motor, aux, servo,
  is_ok,
}
use veloxity.Pwm.Sync.{
  Mask, no_bits, PwmOutputState, set_bit, sync_pwm_output_state, channel_count, desired_mask,
}
use veloxity.Pwm.Outputs.{
  channel_source, RosflightAuxCmdType, RosflightAuxCmdMsg, compose_pwm_outputs,
}
use veloxity.Pwm.Settled.{sync-Settles, kill_switches_off}
use veloxity.Pwm.Safe.{motor_bounds}
use veloxity.Control.Stages.{Estimator, Controller, Mixer, healthy}
use veloxity.Control.Run.{Sensors, Pipeline, run_control_pipeline_if_new_imu}
use veloxity.Control.Disarmed.{SafeCalls, disarmed_pass}
use veloxity.Tests.Data.{hundredths, zero_params, with_param, manager}

-- Four channels, and the commands that they were sent last.
abbrev Bank : Type 0
Bank = Mask × List ℤ

abbrev switch_bank : Bank → ℕ → Bool → Bank × Result (Unit {0})
switch_bank (on, sent) channel value =
    if ltb channel 4
    then ((set_bit on channel value, sent), ok tt)
    else ((on, sent), err channel_out_of_range)

abbrev bank_driver : PwmDriver ℤ Bank
bank_driver = record {
  len = λ bank. 4;
  enable = λ bank channel. switch_bank bank channel true;
  disable = λ bank channel. switch_bank bank channel false;
  enable_all = λ (on, sent). (((λ channel. true), sent), ok tt);
  disable_all = λ (on, sent). (no_bits, sent);
  flush = λ bank. bank;
  send_commands = λ (on, sent) commands. ((on, commands), ok tt);
  configure_output_rates = λ bank rates. (bank, ok tt);
}

switch_bank-on :
    (bank : Bank) (channel c : ℕ) (value : Bool)
    → (switch_bank bank channel value).0.0 c
      ≡ (if is_ok (switch_bank bank channel value).1 && channel == c then value else bank.0 c)
switch_bank-on (on, sent) channel c value = ground arith

abbrev bank_laws : IsDriver bank_driver
bank_laws = record {
  is_on = λ bank. bank.0;
  on-enable = λ bank channel c. switch_bank-on bank channel c true;
  on-disable = λ bank channel c. switch_bank-on bank channel c false;
  on-enable_all = λ bank c good fits. refl;
  on-disable_all = λ bank c. refl;
  on-flush = λ bank c. refl;
}

abbrev first_two : Mask
first_two channel = ltb channel 2

abbrev two_on : PwmOutputState
two_on = record { enabled_mask = first_two }

abbrev bank : Bank
bank = (first_two, [])

kill_switches_off_example :
    let (pwm', output', r) = sync_pwm_output_state bank_driver bank two_on true (negsuc 0) in
    (pwm'.0 1 ≡ false) × (output'.enabled_mask 1 ≡ false) × (is_ok r ≡ true)
unfolding channel_count
kill_switches_off_example =
    kill_switches_off bank_driver bank_laws bank two_on (negsuc 0) 1 (omega arith) refl

-- The third channel alone.
sync-Settles_example :
    let (pwm', output', r) = sync_pwm_output_state bank_driver bank two_on false (pos 4) in
    (pwm'.0 2 ≡ true) × (output'.enabled_mask 2 ≡ true)
unfolding channel_count desired_mask sync_pwm_output_state
sync-Settles_example =
    sync-Settles bank_driver bank_laws bank two_on false (pos 4) 2 (omega arith) refl
      (λ bad. absurd cc)

abbrev types : List MixerOutputType
types = motor ∷ servo ∷ aux ∷ []

abbrev aux_motor : RosflightAuxCmdMsg ℤ
aux_motor = record {
  type_array =
      RosflightAuxCmdType.disabled ∷ RosflightAuxCmdType.disabled ∷ RosflightAuxCmdType.motor ∷ [];
  aux_cmd_array = pos 0 ∷ pos 0 ∷ pos 80 ∷ [];
}

abbrev same_float : ℤ → ℤ
same_float v = v

-- All outputs, and an idle throttle of 0.1.
abbrev idle_params : Params ℤ
idle_params =
    with_param (with_param zero_params param_motor_idle_throttle (float (pos 10)))
      param_channel_output_mask (int (negsuc 0))

motor_bounds_example :
    let out =
      compose_pwm_outputs same_float
        (pos 170 ∷ pos 20 ∷ [])
        types
        none
        (manager (armed no_error))
        idle_params in
    (hundredths.lt (pos 100) (get_or out 0 (pos 9)) ≡ false)
    × (hundredths.lt (get_or out 0 (pos 9)) (pos 0) ≡ false)
unfolding channel_source get_by_id
motor_bounds_example =
    motor_bounds same_float (pos 170 ∷ pos 20 ∷ []) types none (manager (armed no_error))
      idle_params 0 (pos 9) (omega arith) refl (refl, refl) (refl, refl) (refl, refl)

-- Stages that keep their state, over the unit type.
abbrev pub estimator : Estimator ℤ ℤ (Unit {0}) (Unit {0}) (Unit {0}) Bool
estimator = record {
  estimate = λ e sensors params dt external. (tt, true);
  is_healthy = λ healthy. healthy;
  update_params = λ e params. tt;
}

abbrev pub controller : Controller ℤ ℤ (Unit {0}) Bool ℤ
controller = record {
  control = λ c estimate state control params air_density dt. (tt, state, dt);
  update_gains = λ c params. tt;
}

abbrev pub mixer : Mixer ℤ ℤ (Unit {0}) ℤ (List ℤ)
mixer = record {
  mix = λ m u state params rc_override air_density voltage. (tt, (u ∷ u ∷ []), healthy);
  as_ref = λ a. a;
  output_types = λ m. types;
  default_pwm_rates = λ m. pos 400 ∷ [];
  on_param_changed = λ m params id. (tt, none);
  refresh_params = λ m params. (tt, none);
}

abbrev sensors : Sensors ℤ (Unit {0})
sensors = record {
  samples = tt;
  imu_timestamp = some 2000;
  air_density = pos 122;
  battery_voltage = none;
}

abbrev pub pipeline : Pipeline ℤ (Unit {0}) (Unit {0}) (Unit {0}) Bank (Unit {0}) Bool (List ℤ)
pipeline = record {
  external_attitude = none;
  state = manager (preflight no_error);
  estimator = tt;
  controller = tt;
  mixer = tt;
  resource = record {
    latest_estimator_state = true;
    latest_actuator_commands = none;
    latest_pwm_outputs = [];
    latest_loop_time_us = 0;
    last_imu_time = 1000;
    pwm_rates_configured = false;
  };
  pwm = bank;
}

disarmed_pass_example :
    let (p', ran) =
      run_control_pipeline_if_new_imu same_float
        (λ n. pos n)
        estimator
        controller
        mixer
        bank_driver
        idle_params
        sensors
        none
        Manager.new
        two_on
        5
        9
        pipeline in
    (is_armed p'.state ≡ false) × SafeCalls same_float bank_driver bank p'.pwm
unfolding is_armed
disarmed_pass_example =
    disarmed_pass same_float (λ n. pos n) estimator controller mixer bank_driver idle_params sensors
      none Manager.new two_on 5 9 pipeline (λ c estimate state control density dt off. off) refl
