-- ===== src/Command/Lockout.antt =====
-- The angle-mode lockout, `RcAngleModeLockoutMachine` of crates/veloxity_core/src/command.rs. Its log
-- calls are left out; `rate_wait_logged` is the state that keeps one of them from repeating.
use veloxity.Base.{Bool, true, false, not, ◌&&◌, ◌||◌, if◌then◌else◌}

pub data LockoutState : Type 0 where
  inactive : LockoutState
  -- Whether the estimator has recovered, and whether the wait has been logged.
  switch_reset_required : Bool → Bool → LockoutState
  param_rate_until_explicit_angle : LockoutState

pub record LockoutMachine : Type 0 where
  pub state : LockoutState
  pub denial_active : Bool

pub record LockoutInput : Type 0 where
  pub fixed_wing : Bool
  pub estimator_unhealthy : Bool
  pub offboard_angle_requested : Bool
  pub rc_angle_requested : Bool
  pub rc_attitude_source_requested : Bool
  pub att_type_switch_mapped : Bool
  pub att_type_switch_rate : Bool
  pub param_mode_rate : Bool

pub record LockoutOutput : Type 0 where
  pub force_rc_attitude : Bool
  pub force_rc_rate : Bool
  pub force_param_rate : Bool

abbrev pub no_output : LockoutOutput
no_output = record { force_rc_attitude = false; force_rc_rate = false; force_param_rate = false }

-- `reset`, and the default.
abbrev pub reset_machine : LockoutMachine
reset_machine = record { state = inactive; denial_active = false }

abbrev pub is_inactive : LockoutState → Bool
is_inactive inactive = true
is_inactive _ = false

advance_state : LockoutState → LockoutInput → LockoutState
advance_state inactive i = inactive
advance_state (switch_reset_required estimator_recovered rate_wait_logged) i =
    let recovered = estimator_recovered || not i.estimator_unhealthy in
    if recovered && i.att_type_switch_rate
    then inactive
    else switch_reset_required recovered
        (rate_wait_logged || (i.att_type_switch_rate && not recovered))
advance_state param_rate_until_explicit_angle i =
    if not i.estimator_unhealthy && i.param_mode_rate
    then inactive
    else param_rate_until_explicit_angle

unfoldable pub advance : LockoutMachine → LockoutInput → LockoutMachine
unfolding advance_state
advance m i = record m { state = advance_state m.state i }

entered_state : LockoutState → LockoutState
entered_state (switch_reset_required recovered logged) = switch_reset_required recovered logged
entered_state _ = switch_reset_required false false

unfoldable pub enter : LockoutMachine → LockoutInput → LockoutMachine
unfolding entered_state
enter m i = if m.denial_active then m else record {
  state =
      if i.att_type_switch_mapped then entered_state m.state else param_rate_until_explicit_angle;
  denial_active = true;
}

abbrev pub unsafe_angle_requested : LockoutInput → Bool
unsafe_angle_requested i =
    i.estimator_unhealthy
    && (i.offboard_angle_requested || (i.rc_attitude_source_requested && i.rc_angle_requested))

unfoldable pub step : LockoutMachine → LockoutInput → LockoutMachine × LockoutOutput
unfolding advance enter
step m i =
    if i.fixed_wing
    then (reset_machine, no_output)
    else (let advanced = advance m i in
        let lockout_active = not (is_inactive advanced.state) in
        let refused = unsafe_angle_requested i in
        (
          if refused then enter advanced i else record advanced { denial_active = false },
          record {
            force_rc_attitude = i.estimator_unhealthy && i.offboard_angle_requested;
            force_rc_rate = lockout_active || refused;
            force_param_rate = not i.att_type_switch_mapped && (refused && not i.param_mode_rate);
          },
        ))
