-- ===== src/Rc/Handler.antt =====
-- The arming gestures and the handler's step: `look_for_arm_disarm_signal` and `run` of
-- crates/veloxity_core/src/rc.rs. Each returns the handler and the state manager that it drives.
use veloxity.Base.{ℕ, ◌+◌, ◌-◌, ◌*◌, ◌^◌, Bool, true, false, not, ◌&&◌, min, ltb, if◌then◌else◌}
use veloxity.Base.Int.{pos}
use veloxity.Float.{Float, unit}
use veloxity.Params.{Params, get_by_id, float_or, param_arm_threshold}
use veloxity.StateMachine.Flags.{rc_lost}
use veloxity.StateMachine.Machine.{request_arm, request_disarm, error_occurred, error_cleared}
use veloxity.StateMachine.Manager.{StateManager, is_armed, update, update_arming_safety}
use veloxity.Rc.Types.{Rc, z, f, arm, throttle_override, stick, switch_on, switch_mapped}
use veloxity.Rc.Input.{process_sticks_and_switches, check_rc_health}

-- u32 `saturating_add`; `saturating_sub` is the subtraction of ℕ.
abbrev pub saturating_add_u32 : ℕ → ℕ → ℕ
saturating_add_u32 a b = min (a + b) (2 ^ 32 - 1)

module _ {F : Type 0} ⦃fl : Float F⦄ where
  unfoldable pub throttle_low : Rc F → Params F → Bool
  throttle_low r params =
      fl.lt (stick r f) (float_or (get_by_id params param_arm_threshold) (fl.decimal (pos 15) 2))

  -- Left stick down and to the right.
  unfoldable pub arming_position : Rc F → Params F → Bool
  unfolding throttle_low
  arming_position r params =
      let threshold = float_or (get_by_id params param_arm_threshold) (fl.decimal (pos 15) 2) in
      throttle_low r params && fl.lt (fl.sub unit threshold) (stick r z)

  -- Left stick down and to the left.
  unfoldable pub disarming_position : Rc F → Params F → Bool
  unfolding throttle_low
  disarming_position r params =
      let threshold = float_or (get_by_id params param_arm_threshold) (fl.decimal (pos 15) 2) in
      throttle_low r params && fl.lt (stick r z) (fl.neg (fl.sub unit threshold))

  -- The time that the sticks have been held, with this call's share.
  abbrev pub held : Rc F → ℕ → Bool → ℕ
  held r dt in_position =
      if in_position then saturating_add_u32 r.time_sticks_have_been_in_arming_position_ms dt else 0

  abbrev pub tell_arming_safety : Rc F → Params F → StateManager → StateManager
  tell_arming_safety r params s =
      update_arming_safety s (throttle_low r params)
        (switch_mapped r throttle_override && switch_on r throttle_override)

  stick_disarmed : Rc F → ℕ → Params F → StateManager → Rc F × StateManager
  stick_disarmed r dt params s =
      let time = held r dt (arming_position r params) in
      let r' = record r { time_sticks_have_been_in_arming_position_ms = time } in
      if ltb 1000 time
      then (r', update (tell_arming_safety r params s) request_arm params)
      else (r', s)

  stick_armed : Rc F → ℕ → Params F → StateManager → Rc F × StateManager
  stick_armed r dt params s =
      let time = held r dt (disarming_position r params) in
      if ltb 1000 time
      then (
        record r { time_sticks_have_been_in_arming_position_ms = 0 },
        update s request_disarm params,
      )
      else (record r { time_sticks_have_been_in_arming_position_ms = time }, s)

  switch_arming : Rc F → Params F → StateManager → StateManager
  switch_arming r params s =
      if switch_on r arm
      then (let s' = tell_arming_safety r params s in
          if not (is_armed s) then update s' request_arm params else s')
      else if is_armed s
      then update s request_disarm params
      else s

  unfoldable pub look_for_arm_disarm_signal :
      Rc F → ℕ → Params F → StateManager → Rc F × StateManager
  unfolding stick_disarmed stick_armed switch_arming
  look_for_arm_disarm_signal r now_ms params s =
      let dt = now_ms - r.prev_time_ms in
      let r' = record r { prev_time_ms = now_ms } in
      if not (switch_mapped r' arm)
      then if not (is_armed s) then stick_disarmed r' dt params s else stick_armed r' dt params s
      else (r', switch_arming r' params s)

  -- The handler with the packet's sticks and switches read.
  abbrev pub sensed : Rc F → Rc F
  sensed r = record (process_sticks_and_switches r) { new_command = true }

  unfoldable pub run : Rc F → ℕ → Params F → StateManager → Rc F × StateManager
  run r now_ms params s =
      if check_rc_health r (now_ms * 1000) params
      then look_for_arm_disarm_signal (sensed r) now_ms params
          (update s (error_cleared rc_lost) params)
      else (record r { new_command = false }, update s (error_occurred rc_lost) params)
