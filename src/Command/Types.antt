-- ===== src/Command/Types.antt =====
-- The data of crates/veloxity_core/src/command.rs, and the offboard message of
-- crates/veloxity_core/src/comm/messages.rs.
use veloxity.Base.{ℕ, Bool, true, false}
use veloxity.Float.{Float, nought}

pub data ControlType : Type 0 where
  rate angle throttle passthrough : ControlType

pub record ControlChannel (F : Type 0) : Type 0 where
  pub active : Bool
  pub control_type : ControlType
  pub value : F

-- An array of four channels.
pub record Quad (A : Type 0) : Type 0 where
  pub c0 : A
  pub c1 : A
  pub c2 : A
  pub c3 : A

pub record CombinedControl (F : Type 0) : Type 0 where
  pub stamp_ms : ℕ
  pub qx : ControlChannel F
  pub qy : ControlChannel F
  pub qz : ControlChannel F
  pub fx : ControlChannel F
  pub fy : ControlChannel F
  pub fz : ControlChannel F
  pub passthrough : Quad (ControlChannel F)

pub data OffboardControlMode : Type 0 where
  mode_pass_through : OffboardControlMode
  mode_rollrate_pitchrate_yawrate_throttle : OffboardControlMode
  mode_roll_pitch_yawrate_throttle : OffboardControlMode

-- The ten named bits of the u16.
pub record OffboardControlIgnore : Type 0 where
  pub fx : Bool
  pub fy : Bool
  pub fz : Bool
  pub qx : Bool
  pub qy : Bool
  pub qz : Bool
  pub pass_0 : Bool
  pub pass_1 : Bool
  pub pass_2 : Bool
  pub pass_3 : Bool

pub record OffboardControlMsg (F : Type 0) : Type 0 where
  pub mode : OffboardControlMode
  pub ignore : OffboardControlIgnore
  pub qx : F
  pub qy : F
  pub qz : F
  pub fx : F
  pub fy : F
  pub fz : F
  pub passthrough : Quad F

-- The override bits of `rc_override`, a u16.
abbrev pub override_no_override : ℕ
override_no_override = 0x0

abbrev pub override_att_switch : ℕ
override_att_switch = 0x1

abbrev pub override_thr_switch : ℕ
override_thr_switch = 0x2

abbrev pub override_x : ℕ
override_x = 0x4

abbrev pub override_y : ℕ
override_y = 0x8

abbrev pub override_z : ℕ
override_z = 0x10

abbrev pub override_t : ℕ
override_t = 0x20

abbrev pub override_offboard_x_inactive : ℕ
override_offboard_x_inactive = 0x40

abbrev pub override_offboard_y_inactive : ℕ
override_offboard_y_inactive = 0x80

abbrev pub override_offboard_z_inactive : ℕ
override_offboard_z_inactive = 0x100

abbrev pub override_offboard_t_inactive : ℕ
override_offboard_t_inactive = 0x200

-- `channel.control_type == ControlType::Angle`
abbrev pub is_angle : ControlType → Bool
is_angle angle = true
is_angle _ = false

-- `impl From<ControlType> for OffboardControlMode`
unfoldable pub to_mode : ControlType → OffboardControlMode
to_mode rate = mode_rollrate_pitchrate_yawrate_throttle
to_mode passthrough = mode_pass_through
to_mode angle = mode_roll_pitch_yawrate_throttle
to_mode throttle = mode_roll_pitch_yawrate_throttle

module _ {F : Type 0} ⦃fl : Float F⦄ where
  abbrev pub default_channel : ControlChannel F
  default_channel = record { active = false; control_type = rate; value = nought }

  abbrev pub default_control : CombinedControl F
  default_control = record {
    stamp_ms = 0;
    qx = default_channel;
    qy = default_channel;
    qz = default_channel;
    fx = default_channel;
    fy = default_channel;
    fz = default_channel;
    passthrough = record {
      c0 = default_channel;
      c1 = default_channel;
      c2 = default_channel;
      c3 = default_channel;
    };
  }
