-- ===== src/Sensors/Latch.antt =====
-- What the health check of crates/veloxity_core/src/sensors/health.rs makes of the error bits.
use veloxity.Base.{
  ℕ, ◌+◌, ◌^◌, ◌<◌, ◌≤◌, ◌≡◌, refl, sym, ◌∙◌, subst, Bool, true, false, ◌||◌, List, [], ◌∷◌, ltb,
  if◌then◌else◌, arith,
}
use veloxity.Float.{Float}
use veloxity.Params.{Params}
use veloxity.StateMachine.Flags.{
  ErrorFlag, imu_not_responding, uncalibrated_imu, insert, remove, contains,
}
use veloxity.StateMachine.Machine.{error_occurred, error_cleared}
use veloxity.StateMachine.Manager.{StateManager, get_errors, set_error_flag}
use veloxity.StateMachine.Errors.{get_errors-update}
use veloxity.Sensors.Health.{
  imu_timed_out, update_sensor_health, imu_bias_params_are_all_zero,
  initialize_imu_calibration_error,
}

module _ {F : Type 0} (s : StateManager) (params : Params F) where
  -- Setting an error that is there, or clearing one that is not, changes no bit; else its bits are
  -- added or dropped.
  get_errors-set :
      (flag : ErrorFlag) (present : Bool)
      → get_errors (set_error_flag s flag present params) ≡ (
          if present
          then if contains (get_errors s) flag then get_errors s else insert (get_errors s) flag
          else if contains (get_errors s) flag
          then remove (get_errors s) flag
          else get_errors s)
  unfolding set_error_flag
  get_errors-set flag present = ground (
    arith,
    get_errors-update s params (error_occurred flag),
    get_errors-update s params (error_cleared flag),
  )

  sampled :
      (now_us last timeout : ℕ)
      → let (s', last') = update_sensor_health now_us true params s last timeout in
        (contains (get_errors s') imu_not_responding ≡ false) × (last' ≡ now_us)
  unfolding update_sensor_health contains remove
  sampled now_us last timeout = ground (arith, get_errors-set imu_not_responding false)

  not_sampled :
      (now_us last timeout : ℕ)
      → last + timeout < 2 ^ 64
      → let (s', last') = update_sensor_health now_us false params s last timeout in
        (contains (get_errors s') imu_not_responding
          ≡ (ltb (last + timeout) now_us || contains (get_errors s) imu_not_responding))
        × (last' ≡ last)
  unfolding update_sensor_health imu_timed_out contains insert
  not_sampled now_us last timeout small = ground (arith, get_errors-set imu_not_responding true)

-- A health check: its time, and whether a sample came.
abbrev pub Check : Type 0
Check = ℕ × Bool

-- The times of the checks after one at `before` do not go back and stay clear of the wrap.
abbrev pub InOrder : ℕ → ℕ → List Check → Type 0
InOrder timeout before [] = Unit {0}
InOrder timeout before ((now_us, sample) ∷ checks) =
    (before ≤ now_us) × (now_us + timeout < 2 ^ 64) × InOrder timeout now_us checks

abbrev pub last_time : ℕ → List Check → ℕ
last_time before [] = before
last_time before ((now_us, sample) ∷ checks) = last_time now_us checks

abbrev pub last_sample : ℕ → List Check → ℕ
last_sample seen [] = seen
last_sample seen ((now_us, true) ∷ checks) = last_sample now_us checks
last_sample seen ((now_us, false) ∷ checks) = last_sample seen checks

module _ {F : Type 0} (params : Params F) (timeout : ℕ) where
  -- The state and the time of the last sample after the checks.
  unfoldable pub checked : List Check → StateManager → ℕ → StateManager × ℕ
  checked [] s seen = (s, seen)
  checked ((now_us, sample) ∷ checks) s seen =
      let (s', seen') = update_sensor_health now_us sample params s seen timeout in
      checked checks s' seen'

  -- What the checks after one at `before` make of the error and of the remembered time.
  abbrev IsLatched : List Check → StateManager → ℕ → ℕ → ℕ → Type 0
  IsLatched checks s remembered before seen =
      let (s', seen') = checked checks s remembered in
      (contains (get_errors s') imu_not_responding
        ≡ ltb (last_sample seen checks + timeout) (last_time before checks))
      × (seen' ≡ last_sample seen checks)

  checked-IsLatched :
      (checks : List Check) (s : StateManager) (before seen : ℕ)
      → seen ≤ before
      → before + timeout < 2 ^ 64
      → contains (get_errors s) imu_not_responding ≡ ltb (seen + timeout) before
      → InOrder timeout before checks
      → IsLatched checks s seen before seen
  unfolding checked
  checked-IsLatched [] s before seen past small latched order = (latched, refl)
  checked-IsLatched ((now_us, true) ∷ checks) s before seen past small latched
        (later, room, order) =
      let (s', seen') = update_sensor_health now_us true params s seen timeout in
      let (cleared, same) = sampled s params now_us seen timeout in
      let early : ltb (now_us + timeout) now_us ≡ false = ground arith in
      let rest =
        checked-IsLatched checks s' now_us now_us (omega arith) room (cleared ∙ sym early) order in
      subst (λ time. IsLatched checks s' time now_us now_us) (sym same) rest
  checked-IsLatched ((now_us, false) ∷ checks) s before seen past small latched
        (later, room, order) =
      let (s', seen') = update_sensor_health now_us false params s seen timeout in
      let (kept, same) = not_sampled s params now_us seen timeout (omega (arith, past, small)) in
      let now : contains (get_errors s') imu_not_responding ≡ ltb (seen + timeout) now_us =
        ground (arith, kept, latched, later) in
      let rest =
        checked-IsLatched checks s' now_us seen (omega (arith, past, later)) room now order in
      subst (λ time. IsLatched checks s' time now_us seen) (sym same) rest

  -- After consecutive health checks at times that do not go back, of which the first brought a sample,
  -- the IMU error stands exactly when the last check is later than the latest sample by more than the
  -- timeout, and the time of the latest sample is remembered; where no time plus the timeout wraps.
  pub imu_error :
      (checks : List Check) (s : StateManager) (start seen : ℕ)
      → start + timeout < 2 ^ 64
      → InOrder timeout start checks
      → let (s', seen') = checked ((start, true) ∷ checks) s seen in
        (contains (get_errors s') imu_not_responding
          ≡ ltb (last_sample start checks + timeout) (last_time start checks))
        × (seen' ≡ last_sample start checks)
  unfolding checked
  imu_error checks s start seen room order =
      let (s', seen') = update_sensor_health start true params s seen timeout in
      let (cleared, same) = sampled s params start seen timeout in
      let early : ltb (start + timeout) start ≡ false = ground arith in
      subst (λ time. IsLatched checks s' time start start) (sym same)
        (checked-IsLatched checks s' start start (omega arith) room (cleared ∙ sym early) order)

module _ {F : Type 0} ⦃fl : Float F⦄ (s : StateManager) (params : Params F) where
  -- Initialisation makes the calibration error stand exactly when every IMU bias is zero.
  pub calibration_error :
      contains (get_errors (initialize_imu_calibration_error s params)) uncalibrated_imu
      ≡ imu_bias_params_are_all_zero params
  unfolding initialize_imu_calibration_error contains insert remove
  calibration_error =
      ground (arith, get_errors-set s params uncalibrated_imu (imu_bias_params_are_all_zero params))
