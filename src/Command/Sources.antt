-- ===== src/Command/Sources.antt =====
-- Which input each channel of the flown command comes from, and what the override bits of
-- crates/veloxity_core/src/command.rs say of it.
use Prim.Native.Nat.{bit_and}
use veloxity.Base.{ℕ, ◌*◌, Bool, ◌≡◌, true, false, ◌==◌, if◌then◌else◌, arith}
use veloxity.Float.{Float}
use veloxity.Params.{Params}
use veloxity.StateMachine.Manager.{StateManager, is_in_failsafe}
use veloxity.Rc.Types.{Rc, take_new_command}
use veloxity.Command.Manager.{CommandManager}
use veloxity.Command.Mux.{
  throttle_channel, do_attitude_muxing, do_throttle_muxing, throttle_mask, do_muxing,
}
use veloxity.Command.Run.{check_link, prepare, resolve, run, rc_override_active}
use veloxity.Command.Failsafe.{run_outside_failsafe}

-- The override bits that a roll command from RC sets: switch, stick, inactive offboard channel.
abbrev pub x_bits : ℕ
x_bits = 0x45

abbrev pub y_bits : ℕ
y_bits = 0x89

abbrev pub force_bits : ℕ
force_bits = 0x222

-- The flown roll, pitch and force channels are the RC ones where one of the override bits of the
-- channel is set and the offboard ones otherwise.
pub record FollowsBits {F : Type 0} (c : CommandManager F) : Type 0 where
  pub qx :
      c.combined_command.qx
      ≡ (if bit_and c.rc_override x_bits == 0 then c.offboard_command.qx else c.rc_command.qx)
  pub qy :
      c.combined_command.qy
      ≡ (if bit_and c.rc_override y_bits == 0 then c.offboard_command.qy else c.rc_command.qy)
  pub fx :
      c.combined_command.fx
      ≡ (if bit_and c.rc_override force_bits == 0 then c.offboard_command.fx else c.rc_command.fx)
  pub fy :
      c.combined_command.fy
      ≡ (if bit_and c.rc_override force_bits == 0 then c.offboard_command.fy else c.rc_command.fy)
  pub fz :
      c.combined_command.fz
      ≡ (if bit_and c.rc_override force_bits == 0 then c.offboard_command.fz else c.rc_command.fz)

module _ {F : Type 0} ⦃fl : Float F⦄ (c : CommandManager F) (params : Params F) (r : Rc F)
    (now_ms : ℕ) (force : Bool) where
  do_muxing-FollowsBits : FollowsBits (do_muxing c params r now_ms force)
  unfolding do_muxing do_attitude_muxing do_throttle_muxing throttle_mask
  do_muxing-FollowsBits = ground arith

  -- With no override bit set, every channel that is flown is the offboard one, and the attitude
  -- channels and the throttle of the configured axis are active.
  pub no_override :
      let c' = do_muxing c params r now_ms force in
      rc_override_active c' ≡ false
      → (c'.combined_command
          ≡ record (c.offboard_command) { stamp_ms = c.combined_command.stamp_ms })
        × (c.offboard_command.qx.active ≡ true)
        × (c.offboard_command.qy.active ≡ true)
        × (c.offboard_command.qz.active ≡ true)
        × ((throttle_channel c.offboard_command params).active ≡ true)
  unfolding do_muxing do_attitude_muxing do_throttle_muxing throttle_mask rc_override_active
  no_override h = ground arith

module _ {F : Type 0} ⦃fl : Float F⦄ (c : CommandManager F) (now_ms : ℕ) (params : Params F)
    (r : Rc F) (s : StateManager) where
  resolve-FollowsBits : FollowsBits (resolve c now_ms params r s).command
  unfolding resolve
  resolve-FollowsBits =
      let (c', safety) = prepare c now_ms params r s in
      do_muxing-FollowsBits c' params (take_new_command r).1 now_ms safety.force_rc_attitude

module _ {F : Type 0} ⦃fl : Float F⦄ (c : CommandManager F) (now_ms : ℕ) (params : Params F)
    (r : Rc F) (s : StateManager) where
  -- Outside failsafe, the roll channel that a run flies is the RC one when one of its override bits
  -- is set and the offboard one otherwise, and likewise the pitch channel and the three force channels.
  pub override_bits :
      is_in_failsafe (check_link r (now_ms * 1000) params s) ≡ false
      → FollowsBits (run c now_ms params r s).command
  override_bits flying =
      rw (run_outside_failsafe c now_ms params r s flying)
        (resolve-FollowsBits c now_ms params r (check_link r (now_ms * 1000) params s))
