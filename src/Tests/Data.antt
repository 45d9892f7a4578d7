-- ===== src/Tests/Data.antt =====
-- Concrete numbers, parameters and states.
use veloxity.Base.{
  ℕ, ◌+◌, ◌-◌, ◌*◌, ◌/◌, ◌^◌, Bool, true, false, not, ltb, ◌==◌, ◌∷◌, replicate, if◌then◌else◌,
}
use veloxity.Base.Int.{ℤ, pos, negsuc, pos_part, neg_part, ltb_ℤ, eqb_ℤ}
use veloxity.Float.{Float}
use veloxity.Params.{Params, ParamId, ParamValue, int, param_rc_override_take_min_throttle}
use veloxity.Rc.Types.{Rc, StickConfig, SwitchConfig}
use veloxity.StateMachine.Machine.{StateMachine}
use veloxity.StateMachine.Manager.{StateManager}

-- The difference of two natural numbers.
abbrev pub minus : ℕ → ℕ → ℤ
minus a b = if ltb a b then negsuc (b - a - 1) else pos (a - b)

abbrev negative : ℤ → Bool
negative (pos n) = false
negative (negsuc n) = true

abbrev magnitude : ℤ → ℕ
magnitude v = pos_part v + neg_part v

abbrev signed : Bool → ℕ → ℤ
signed true n = minus 0 n
signed false n = pos n

abbrev same : Bool → Bool → Bool
same true b = b
same false b = not b

abbrev product : ℤ → ℤ → ℤ
product a b = signed (not (same (negative a) (negative b))) (magnitude a * magnitude b / 100)

abbrev quotient : ℤ → ℤ → ℤ
quotient a b = signed (not (same (negative a) (negative b))) (magnitude a * 100 / magnitude b)

-- Fixed-point numbers with two decimals.
instance abbrev pub hundredths : Float ℤ
hundredths = record {
  decimal = λ m e. signed (negative m) (magnitude m * 10 ^ (2 - e));
  add = λ a b. minus (pos_part a + pos_part b) (neg_part a + neg_part b);
  sub = λ a b. minus (pos_part a + neg_part b) (pos_part b + neg_part a);
  mul = product;
  div = quotient;
  neg = λ a. minus (neg_part a) (pos_part a);
  abs = λ a. pos (magnitude a);
  clamp = λ a lo hi. if ltb_ℤ a lo then lo else if ltb_ℤ hi a then hi else a;
  lt = ltb_ℤ;
  le = λ a b. not (ltb_ℤ b a);
  eq = eqb_ℤ;
}

-- Every parameter is the integer 0.
abbrev pub zero_params : Params ℤ
zero_params = record { values = λ id. int (pos 0) }

abbrev pub with_param : Params ℤ → ParamId → ParamValue ℤ → Params ℤ
with_param params id value = record { values = λ i. if i == id then value else params.values i }

-- A manager in a state, with the throttle low and the override switch on.
abbrev pub manager : StateMachine → StateManager
manager m = record {
  machine = m;
  arming_safety = record { rc_throttle_low = true; rc_throttle_override_switch_on = true };
}

-- A throttle at its minimum overrides.
abbrev pub min_params : Params ℤ
min_params = with_param zero_params param_rc_override_take_min_throttle (int (pos 1))

abbrev pub two_sided : StickConfig
two_sided = record { channel = pos 0; one_sided = false }

abbrev pub unmapped : SwitchConfig
unmapped = record { channel = pos 0; mapped = false; direction = pos 0 }

-- The handler with sixteen channels at 0 but the fifth, which is mapped to the arm switch.
abbrev pub with_arm_switch : ℤ → Rc ℤ
with_arm_switch v = record {
  rc = record {
    header = record { timestamp = 0; status = 0 };
    chan = pos 0 ∷ pos 0 ∷ pos 0 ∷ pos 0 ∷ v ∷ replicate 11 (pos 0);
    num_channels = 16;
    frame_lost = false;
    failsafe_activated = false;
  };
  new_command = false;
  sticks = record { x = two_sided; y = two_sided; z = two_sided; f = two_sided };
  switches = record {
    arm = record { channel = pos 4; mapped = true; direction = pos 1 };
    att_override = unmapped;
    throttle_override = unmapped;
    att_type = unmapped;
    output_kill = unmapped;
  };
  stick_values = record { x = pos 0; y = pos 0; z = pos 0; f = pos 0 };
  switch_values = record {
    arm = false;
    att_override = false;
    throttle_override = false;
    att_type = false;
    output_kill = false;
  };
  prev_time_ms = 0;
  time_sticks_have_been_in_arming_position_ms = 0;
}

-- No switch is mapped, and the sticks are down and to the right.
abbrev pub held_sticks : Rc ℤ
held_sticks = record (with_arm_switch (pos 0)) {
  switches = record {
    arm = unmapped;
    att_override = unmapped;
    throttle_override = unmapped;
    att_type = unmapped;
    output_kill = unmapped;
  };
  stick_values = record { x = pos 0; y = pos 0; z = pos 100; f = pos 0 };
  prev_time_ms = 100;
}
