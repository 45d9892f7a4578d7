-- ===== src/Rc/Input.antt =====
-- From a packet to stick and switch values: `receive`, `process_sticks_and_switches` and
-- `check_rc_health` of crates/veloxity_core/src/rc.rs.
use veloxity.Base.{
  ℕ, ◌+◌, ◌%◌, ◌^◌, Bool, true, false, not, ◌&&◌, ◌||◌, List, [], ◌∷◌, ◌++◌, length, take, drop,
  get_or, min, ltb, leb, if◌then◌else◌,
}
use veloxity.Base.Int.{ℤ, pos, negsuc, ltb_ℤ, as_usize}
use veloxity.Float.{Float, nought}
use veloxity.Params.{Params, get_by_id, int_or, param_rc_num_channels}
use veloxity.Rc.Types.{Rc, RcStruct, RcPacket, StickConfig, SwitchConfig}

abbrev pub rc_timeout_us : ℕ
rc_timeout_us = 500000

module _ {F : Type 0} where
  -- `copy_from_slice` of the first channels; the rest keep what they held.
  unfoldable pub receive : Rc F → RcPacket F → Rc F
  receive r packet =
      let len = min packet.n_chan (length r.rc.chan) in
      record r {
        rc = record {
          header = packet.header;
          chan = take len packet.chan ++ drop len r.rc.chan;
          num_channels = len;
          frame_lost = packet.lol;
          failsafe_activated = packet.lol;
        };
      }

module _ {F : Type 0} ⦃fl : Float F⦄ where
  -- The channel that a configuration names is one that the packet had.
  abbrev pub has_channel : RcStruct F → ℤ → Bool
  has_channel rc channel = not (ltb_ℤ channel (pos 0) || leb rc.num_channels (as_usize channel))

  abbrev pub channel_value : RcStruct F → ℤ → F
  channel_value rc channel = get_or rc.chan (as_usize channel) nought

  -- A stick whose channel is not there keeps its value; a two-sided one goes from [0, 1] to [-1, 1].
  unfoldable pub stick_value : RcStruct F → StickConfig → F → F
  stick_value rc config old =
      if not (has_channel rc config.channel)
      then old
      else let pwm = channel_value rc config.channel in
        if config.one_sided
        then pwm
        else fl.mul (fl.decimal (pos 2) 0) (fl.sub pwm (fl.decimal (pos 5) 1))

  unfoldable pub switch_value : RcStruct F → SwitchConfig → Bool
  switch_value rc config =
      if config.mapped
      then if not (has_channel rc config.channel)
        then false
        else if ltb_ℤ config.direction (pos 0)
        then fl.lt (channel_value rc config.channel) (fl.decimal (pos 2) 1)
        else fl.le (fl.decimal (pos 8) 1) (channel_value rc config.channel)
      else false

  unfoldable pub process_sticks_and_switches : Rc F → Rc F
  process_sticks_and_switches r = record r {
    stick_values = record {
      x = stick_value r.rc r.sticks.x r.stick_values.x;
      y = stick_value r.rc r.sticks.y r.stick_values.y;
      z = stick_value r.rc r.sticks.z r.stick_values.z;
      f = stick_value r.rc r.sticks.f r.stick_values.f;
    };
    switch_values = record {
      arm = switch_value r.rc r.switches.arm;
      att_override = switch_value r.rc r.switches.att_override;
      throttle_override = switch_value r.rc r.switches.throttle_override;
      att_type = switch_value r.rc r.switches.att_type;
      output_kill = switch_value r.rc r.switches.output_kill;
    };
  }

  -- `val < -0.25 || val > 1.25`
  abbrev pub out_of_range : F → Bool
  out_of_range v = fl.lt v (fl.decimal (negsuc 24) 2) || fl.lt (fl.decimal (pos 125) 2) v

  unfoldable pub channels_in_range : List F → Bool
  channels_in_range [] = true
  channels_in_range (v ∷ vs) = not (out_of_range v) && channels_in_range vs

  -- The u64 sum wraps as in a release build.
  unfoldable pub check_rc_health : Rc F → ℕ → Params F → Bool
  check_rc_health r now_us params =
      let num_channels = as_usize (int_or (get_by_id params param_rc_num_channels) (pos 6)) in
      if ltb ((r.rc.header.timestamp + rc_timeout_us) % 2 ^ 64) now_us
      then false
      else if r.rc.frame_lost || r.rc.failsafe_activated
      then false
      else if ltb r.rc.num_channels num_channels
      then false
      else channels_in_range (take num_channels r.rc.chan)
