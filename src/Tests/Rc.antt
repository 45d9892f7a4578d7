-- ===== src/Tests/Rc.antt =====
-- The radio-control handler's theorems at concrete inputs.
use veloxity.Base.{◌≡◌, refl, true, false, [], ◌∷◌, ◌++◌, replicate, arith}
use veloxity.Base.Int.{ℤ, pos}
use veloxity.Params.{get_by_id}
use veloxity.StateMachine.Flags.{no_error}
use veloxity.StateMachine.Machine.{preflight}
use veloxity.StateMachine.Manager.{update_arming_safety, arming_safety_allows_arm, is_armed}
use veloxity.Rc.Types.{RcPacket, stick, switch_mapped}
use veloxity.Rc.Handler.{throttle_low, arming_position}
use veloxity.Rc.Holding.{look_over, hold_arms}
use veloxity.Tests.Data.{hundredths, min_params, manager, held_sticks}

hold_arms_example :
    ((look_over min_params held_sticks (600 ∷ 1000 ∷ []) (manager (preflight no_error))).1
      ≡ manager (preflight no_error))
    × (is_armed
          (look_over min_params held_sticks
            ((600 ∷ 1000 ∷ []) ++ 1200 ∷ [])
            (manager (preflight no_error))).1
        ≡ true)
unfolding is_armed switch_mapped arming_position throttle_low stick arming_safety_allows_arm
    update_arming_safety get_by_id
hold_arms_example =
    hold_arms min_params held_sticks (manager (preflight no_error)) (600 ∷ 1000 ∷ []) 1200
      (record { unmapped = refl; in_position = refl }) refl refl (omega arith, (omega arith, tt))
      (omega arith) (omega arith) (tt, refl, refl)

abbrev packet : RcPacket ℤ
packet = record {
  header = record { timestamp = 7; status = 0 };
  n_chan = 20;
  chan = replicate 24 (pos 50);
  lol = false;
}
