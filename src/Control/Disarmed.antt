-- ===== src/Control/Disarmed.antt =====
-- What the control pipeline of crates/veloxity_core/src/control.rs asks of the PWM driver while the
-- vehicle is disarmed.
use veloxity.Base.{
  ℕ, ◌-◌, ◌≡◌, refl, sym, subst, Bool, true, false, not, List, Option, none, some, leb, ◌==◌,
  if_elim, arith,
}
use veloxity.Base.Int.{pos}
use veloxity.Float.{Float}
use veloxity.Params.{Params}
use veloxity.StateMachine.Flags.{
  ErrorFlag, time_going_backwards, unhealthy_estimator, invalid_mixer,
}
use veloxity.StateMachine.Manager.{StateManager, is_armed, set_error_flag}
use veloxity.Command.Types.{CombinedControl}
use veloxity.Command.Manager.{CommandManager}
use veloxity.Pwm.Driver.{PwmDriver, Result, ok, err, MixerOutputType, send_disarmed_commands}
use veloxity.Pwm.Sync.{PwmOutputState, is_enabled}
use veloxity.Pwm.Outputs.{RosflightAuxCmdMsg, write_pwm_commands, result_true}
use veloxity.Control.Stages.{Estimator, Controller, Mixer}
use veloxity.Control.Run.{
  Sensors, Pipeline, is_invalid, configure_rates, drive, run_stages, run_at, run_sample,
  run_control_pipeline_if_new_imu,
}

set_error_flag-disarmed :
    {F : Type 0} (s : StateManager) (flag : ErrorFlag) (is_present : Bool) (params : Params F)
    → is_armed s ≡ false
    → is_armed (set_error_flag s flag is_present params) ≡ false
unfolding set_error_flag is_armed
set_error_flag-disarmed s flag is_present params h = ground arith

-- A driver after calls that set rates or send the disarmed commands, and no other.
pub data SafeCalls {F R D : Type 0} ⦃fl : Float F⦄ (from_f32 : F → R) (dr : PwmDriver R D) (d : D)
    : D → Type 0 where
  no_call : SafeCalls from_f32 dr d d
  set_rates :
      {d' : D} (rates : List R)
      → SafeCalls from_f32 dr d d'
      → SafeCalls from_f32 dr d (dr.configure_output_rates d' rates).0
  send_disarmed :
      {d' : D} (types : List MixerOutputType)
      → SafeCalls from_f32 dr d d'
      → SafeCalls from_f32 dr d (send_disarmed_commands from_f32 dr d' types).0

result_true-driver : {D : Type 0} (r : D × Result (Unit {0})) → (result_true r).0 ≡ r.0
result_true-driver (d, ok _) = refl
result_true-driver (d, err e) = refl

module _ {F R E C M D Sn X S U A : Type 0} ⦃fl : Float F⦄ ⦃fr : Float R⦄ (from_f32 : F → R)
    (from_u64 : ℕ → R) (est : Estimator F R E Sn X S) (con : Controller F R C S U)
    (mix : Mixer F R M U A) (dr : PwmDriver R D) (params : Params F) (sensors : Sensors R Sn)
    (aux_command : Option (RosflightAuxCmdMsg F)) (command : CommandManager F)
    (output : PwmOutputState) (loop_start_us loop_end_us : ℕ) where
  -- Disarmed, after safe calls from `d` on.
  abbrev IsSafe : D → Pipeline R E C M D X S A → Type 0
  IsSafe d p = (is_armed p.state ≡ false) × SafeCalls from_f32 dr d p.pwm

  configure_rates-IsSafe :
      (d : D) (p : Pipeline R E C M D X S A)
      → IsSafe d p
      → IsSafe d (
          configure_rates from_f32 from_u64 est con mix dr params sensors aux_command command output
            loop_start_us loop_end_us p)
  unfolding configure_rates
  configure_rates-IsSafe d p (off, calls) =
      if_elim (IsSafe d) p.resource.pwm_rates_configured (λ e. (off, calls))
        (λ e. (off, set_rates (mix.default_pwm_rates p.mixer) calls))

  write-SafeCalls :
      (d pwm : D) (commands : List R) (types : List MixerOutputType) (state : StateManager)
      → is_armed state ≡ false
      → SafeCalls from_f32 dr d pwm
      → SafeCalls from_f32 dr d (write_pwm_commands from_f32 dr pwm output commands types state).0
  unfolding write_pwm_commands
  write-SafeCalls d pwm commands types state off calls =
      if_elim (λ (r : D × Result Bool). SafeCalls from_f32 dr d r.0) (not (is_enabled output))
        (λ e. calls)
        (λ e. rw off (
          subst (SafeCalls from_f32 dr d)
            (sym (result_true-driver (send_disarmed_commands from_f32 dr pwm types)))
            (send_disarmed types calls)))

  abbrev KeepsDisarmed : Type 0
  KeepsDisarmed =
      (controller : C) (estimate : S) (state : StateManager) (control : CombinedControl F)
      (air_density dt : R)
      → is_armed state ≡ false
      → is_armed (con.control controller estimate state control params air_density dt).1 ≡ false

  drive-IsSafe :
      (d : D) (estimate : S) (commands : A) (p : Pipeline R E C M D X S A)
      → IsSafe d p
      → IsSafe d (
          drive from_f32 from_u64 est con mix dr params sensors aux_command command output
            loop_start_us loop_end_us estimate commands p)
  unfolding drive
  drive-IsSafe d estimate commands p safe =
      let (off, calls) = configure_rates-IsSafe d p safe in
      (off, write-SafeCalls d _ _ _ _ off calls)

  run_stages-IsSafe :
      (d : D) (dt : R) (p : Pipeline R E C M D X S A)
      → KeepsDisarmed
      → IsSafe d p
      → IsSafe d (
          run_stages from_f32 from_u64 est con mix dr params sensors aux_command command output
            loop_start_us loop_end_us dt p)
  unfolding run_stages
  run_stages-IsSafe d dt p keeps (off, calls) =
      let (estimator, estimate) =
        est.estimate p.estimator sensors.samples params dt p.external_attitude in
      let watched =
        set_error_flag p.state unhealthy_estimator (not (est.is_healthy estimate)) params in
      let (controller, controlled, controls) =
        con.control p.controller estimate watched command.combined_command params
          sensors.air_density dt in
      let (mixer, commands, status) =
        mix.mix p.mixer controls controlled params command.rc_override sensors.air_density
          sensors.battery_voltage in
      drive-IsSafe d estimate commands
        (record p {
          external_attitude = none;
          estimator = estimator;
          controller = controller;
          mixer = mixer;
          state = set_error_flag controlled invalid_mixer (is_invalid status) params;
        })
        (
          set_error_flag-disarmed controlled invalid_mixer (is_invalid status) params (
              keeps p.controller estimate watched command.combined_command sensors.air_density dt (
                set_error_flag-disarmed p.state unhealthy_estimator (not (est.is_healthy estimate))
                  params off)),
          calls,
        )

  run_at-IsSafe :
      (now : ℕ) (p : Pipeline R E C M D X S A)
      → KeepsDisarmed
      → is_armed p.state ≡ false
      → IsSafe p.pwm
          (run_at from_f32 from_u64 est con mix dr params sensors aux_command command output
            loop_start_us loop_end_us now p).0
  unfolding run_at
  run_at-IsSafe now p keeps off =
      let P : Pipeline R E C M D X S A × Bool → Type 0 = λ r. IsSafe p.pwm r.0 in
      if_elim P (p.resource.last_imu_time == 0) (λ e. (off, no_call))
        (λ started.
          if_elim P (leb now p.resource.last_imu_time)
            (λ e. (set_error_flag-disarmed p.state _ true params off, no_call))
            (λ e.
              let last = p.resource.last_imu_time in
              run_stages-IsSafe p.pwm
                (fr.mul (from_u64 (now - last)) (from_f32 (fl.decimal (pos 1) 6)))
                (record p {
                  resource = record (p.resource) { last_imu_time = now };
                  state = set_error_flag p.state time_going_backwards false params;
                })
                keeps (set_error_flag-disarmed p.state _ false params off, no_call)))

  -- Whatever the estimator and the mixer do, and a controller that leaves a disarmed vehicle disarmed,
  -- a pass over a disarmed vehicle, with a new sample or without one, leaves it disarmed and makes no
  -- call of the driver but to set the output rates and to send the disarmed commands.
  pub disarmed_pass :
      (p : Pipeline R E C M D X S A)
      → ((controller : C) (estimate : S) (state : StateManager) (control : CombinedControl F)
            (air_density dt : R)
          → is_armed state ≡ false
          → is_armed (con.control controller estimate state control params air_density dt).1
            ≡ false)
      → is_armed p.state ≡ false
      → let (p', ran) =
          run_control_pipeline_if_new_imu from_f32 from_u64 est con mix dr params sensors
            aux_command command output loop_start_us loop_end_us p in
        (is_armed p'.state ≡ false) × SafeCalls from_f32 dr p.pwm p'.pwm
  unfolding run_control_pipeline_if_new_imu
  disarmed_pass p keeps off =
      elim sensors.imu_timestamp
        as (λ o.
          IsSafe p.pwm
            (run_sample from_f32 from_u64 est con mix dr params sensors aux_command command output
              loop_start_us loop_end_us o p).0) [
                | none ↦ (off, no_call)
                | some now ↦ run_at-IsSafe now p keeps off
              ]
