-- ===== src/Rc/Types.antt =====
-- The data of crates/veloxity_core/src/rc.rs and the RC packet of crates/veloxity_core/src/packets.rs.
-- An array indexed by an enum is a record with a field for each of its values.
use veloxity.Base.{ℕ, Bool, false, List, replicate}
use veloxity.Base.Int.{ℤ, pos}
use veloxity.Float.{Float, nought}

pub data Stick : Type 0 where
  x y z f : Stick

pub data Switch : Type 0 where
  arm att_override throttle_override att_type output_kill : Switch

pub record Sticks (A : Type 0) : Type 0 where
  pub x : A
  pub y : A
  pub z : A
  pub f : A

pub record Switches (A : Type 0) : Type 0 where
  pub arm : A
  pub att_override : A
  pub throttle_override : A
  pub att_type : A
  pub output_kill : A

abbrev pub at_stick : {A : Type 0} → Sticks A → Stick → A
at_stick a x = a.x
at_stick a y = a.y
at_stick a z = a.z
at_stick a f = a.f

abbrev pub at_switch : {A : Type 0} → Switches A → Switch → A
at_switch a arm = a.arm
at_switch a att_override = a.att_override
at_switch a throttle_override = a.throttle_override
at_switch a att_type = a.att_type
at_switch a output_kill = a.output_kill

pub record RcHeader : Type 0 where
  pub timestamp : ℕ  -- u64, microseconds
  pub status : ℕ  -- u16

pub record StickConfig : Type 0 where
  pub channel : ℤ
  pub one_sided : Bool

pub record SwitchConfig : Type 0 where
  pub channel : ℤ
  pub mapped : Bool
  pub direction : ℤ

-- `chan` holds 16 channels.
pub record RcStruct (F : Type 0) : Type 0 where
  pub header : RcHeader
  pub chan : List F
  pub num_channels : ℕ
  pub frame_lost : Bool
  pub failsafe_activated : Bool

-- `chan` holds 24 channels.
pub record RcPacket (F : Type 0) : Type 0 where
  pub header : RcHeader
  pub n_chan : ℕ  -- u32
  pub chan : List F
  pub lol : Bool

pub record Rc (F : Type 0) : Type 0 where
  pub rc : RcStruct F
  pub new_command : Bool
  pub sticks : Sticks StickConfig
  pub switches : Switches SwitchConfig
  pub stick_values : Sticks F
  pub switch_values : Switches Bool
  pub prev_time_ms : ℕ  -- u32
  pub time_sticks_have_been_in_arming_position_ms : ℕ  -- u32

abbrev pub rc_struct_channels : ℕ
rc_struct_channels = 16

abbrev pub rc_packet_channels : ℕ
rc_packet_channels = 24

abbrev each_stick : {A : Type 0} → A → Sticks A
each_stick a = record { x = a; y = a; z = a; f = a }

abbrev each_switch : {A : Type 0} → A → Switches A
each_switch a = record {
  arm = a;
  att_override = a;
  throttle_override = a;
  att_type = a;
  output_kill = a;
}

module _ {F : Type 0} ⦃fl : Float F⦄ where
  unfoldable pub new_struct : RcStruct F
  new_struct = record {
    header = record { timestamp = 0; status = 0 };
    chan = replicate rc_struct_channels nought;
    num_channels = 0;
    frame_lost = false;
    failsafe_activated = false;
  }

  unfoldable pub new : Rc F
  unfolding new_struct
  new = record {
    rc = new_struct;
    new_command = false;
    sticks = each_stick (record { channel = pos 0; one_sided = false });
    switches = each_switch (record { channel = pos 0; mapped = false; direction = pos 0 });
    stick_values = each_stick nought;
    switch_values = each_switch false;
    prev_time_ms = 0;
    time_sticks_have_been_in_arming_position_ms = 0;
  }

module _ {F : Type 0} where
  unfoldable pub stick : Rc F → Stick → F
  stick r channel = at_stick r.stick_values channel

  unfoldable pub switch_on : Rc F → Switch → Bool
  switch_on r channel = at_switch r.switch_values channel

  unfoldable pub switch_mapped : Rc F → Switch → Bool
  switch_mapped r channel = (at_switch r.switches channel).mapped

  -- `Rc::new_command` reads the flag and clears it.
  unfoldable pub take_new_command : Rc F → Bool × Rc F
  take_new_command r = (r.new_command, record r { new_command = false })
