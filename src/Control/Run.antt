-- ===== src/Control/Run.antt =====
-- `run_control_pipeline_if_new_imu` of crates/veloxity_core/src/control.rs. The test pins and the
-- optional timing are left out, and the two clock readings are arguments.
use veloxity.Base.{
  ℕ, ◌-◌, ◌^◌, Bool, true, false, not, List, Option, none, some, min, leb, ◌==◌, if◌then◌else◌,
}
use veloxity.Base.Int.{pos}
use veloxity.Float.{Float}
use veloxity.Params.{Params}
use veloxity.StateMachine.Flags.{time_going_backwards, unhealthy_estimator, invalid_mixer}
use veloxity.StateMachine.Manager.{StateManager, set_error_flag}
use veloxity.Command.Manager.{CommandManager}
use veloxity.Pwm.Driver.{PwmDriver, is_ok}
use veloxity.Pwm.Sync.{PwmOutputState}
use veloxity.Pwm.Outputs.{RosflightAuxCmdMsg, compose_pwm_outputs, write_pwm_commands}
use veloxity.Control.Stages.{Estimator, Controller, Mixer, MixerStatus, healthy}
use veloxity.Control.Stages

-- What the pipeline reads of the processed sensors.
pub record Sensors (R Sn : Type 0) : Type 0 where
  pub samples : Sn
  pub imu_timestamp : Option ℕ
  pub air_density : R
  pub battery_voltage : Option R

pub record ControlPipelineResource (R S A : Type 0) : Type 0 where
  pub latest_estimator_state : S
  pub latest_actuator_commands : Option A
  pub latest_pwm_outputs : List R
  pub latest_loop_time_us : ℕ
  pub last_imu_time : ℕ
  pub pwm_rates_configured : Bool

-- What a run can change.
pub record Pipeline (R E C M D X S A : Type 0) : Type 0 where
  pub external_attitude : Option X
  pub state : StateManager
  pub estimator : E
  pub controller : C
  pub mixer : M
  pub resource : ControlPipelineResource R S A
  pub pwm : D

abbrev pub is_invalid : MixerStatus → Bool
is_invalid healthy = false
is_invalid Stages.invalid_mixer = true

unfoldable pub invalidate_pwm_rates :
    {R S A : Type 0} → ControlPipelineResource R S A → ControlPipelineResource R S A
invalidate_pwm_rates r = record r { pwm_rates_configured = false }

module _ {F R E C M D Sn X S U A : Type 0} ⦃fl : Float F⦄ ⦃fr : Float R⦄ (from_f32 : F → R)
    (from_u64 : ℕ → R) (est : Estimator F R E Sn X S) (con : Controller F R C S U)
    (mix : Mixer F R M U A) (dr : PwmDriver R D) (params : Params F) (sensors : Sensors R Sn)
    (aux_command : Option (RosflightAuxCmdMsg F)) (command : CommandManager F)
    (output : PwmOutputState) (loop_start_us loop_end_us : ℕ) where
  unfoldable pub configure_rates : Pipeline R E C M D X S A → Pipeline R E C M D X S A
  configure_rates p =
      if p.resource.pwm_rates_configured
      then p
      else (let (pwm, r) = dr.configure_output_rates p.pwm (mix.default_pwm_rates p.mixer) in
          record p {
            pwm = pwm;
            resource =
                if is_ok r then record (p.resource) { pwm_rates_configured = true } else p.resource;
          })

  -- From the mixer's result on.
  unfoldable pub drive : S → A → Pipeline R E C M D X S A → Pipeline R E C M D X S A
  unfolding configure_rates
  drive estimate commands p0 =
      let p = configure_rates p0 in
      let types = mix.output_types p.mixer in
      let outputs =
        compose_pwm_outputs from_f32 (mix.as_ref commands) types aux_command p.state params in
      let (pwm, written) = write_pwm_commands from_f32 dr p.pwm output outputs types p.state in
      record p {
        pwm = pwm;
        resource = record (p.resource) {
          latest_estimator_state = estimate;
          latest_actuator_commands = some commands;
          latest_pwm_outputs = outputs;
          latest_loop_time_us = min (loop_end_us - loop_start_us) (2 ^ 16 - 1);
        };
      }

  -- The estimator, the controller and the mixer, with the error flags that they set.
  unfoldable pub run_stages : R → Pipeline R E C M D X S A → Pipeline R E C M D X S A
  unfolding drive
  run_stages dt p =
      let (estimator, estimate) =
        est.estimate p.estimator sensors.samples params dt p.external_attitude in
      let watched =
        set_error_flag p.state unhealthy_estimator (not (est.is_healthy estimate)) params in
      let (controller, controlled, controls) =
        con.control p.controller estimate watched command.combined_command params
          sensors.air_density dt in
      let (mixer, commands, status) =
        mix.mix p.mixer controls controlled params command.rc_override sensors.air_density
          sensors.battery_voltage in
      drive estimate commands (record p {
        external_attitude = none;
        estimator = estimator;
        controller = controller;
        mixer = mixer;
        state = set_error_flag controlled invalid_mixer (is_invalid status) params;
      })

  abbrev timed : Pipeline R E C M D X S A → ℕ → Pipeline R E C M D X S A
  timed p now = record p { resource = record (p.resource) { last_imu_time = now } }

  -- The run for a sample with a timestamp, and whether the stages ran.
  unfoldable pub run_at : ℕ → Pipeline R E C M D X S A → Pipeline R E C M D X S A × Bool
  unfolding run_stages
  run_at now p =
      let last = p.resource.last_imu_time in
      if last == 0
      then (timed p now, false)
      else if leb now last
      then (record p { state = set_error_flag p.state time_going_backwards true params }, false)
      else (
        run_stages (fr.mul (from_u64 (now - last)) (from_f32 (fl.decimal (pos 1) 6)))
            (record (timed p now) {
              state = set_error_flag p.state time_going_backwards false params;
            }),
        true,
      )

  abbrev pub run_sample : Option ℕ → Pipeline R E C M D X S A → Pipeline R E C M D X S A × Bool
  run_sample none p = (p, false)
  run_sample (some now) p = run_at now p

  unfoldable pub run_control_pipeline_if_new_imu :
      Pipeline R E C M D X S A → Pipeline R E C M D X S A × Bool
  unfolding run_at
  run_control_pipeline_if_new_imu = run_sample sensors.imu_timestamp
