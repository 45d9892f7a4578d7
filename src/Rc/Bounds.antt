-- ===== src/Rc/Bounds.antt =====
-- No channel read of crates/veloxity_core/src/rc.rs is out of bounds.
use veloxity.Base.{
  ◌≤◌, ◌<◌, ◌≡◌, refl, true, length, take, drop, min, arith, length-append, length-take,
  length-drop,
}
use veloxity.Base.Int.{ℤ, as_usize}
use veloxity.Float.{Float}
use veloxity.Rc.Types.{Rc, RcPacket, rc_struct_channels, rc_packet_channels, new}
use veloxity.Rc.Input.{receive, has_channel}

-- The channel array has its 16 entries, and the packet's channel count does not pass them.
pub record IsWellFormed {F : Type 0} (r : Rc F) : Type 0 where
  pub channels : length r.rc.chan ≡ rc_struct_channels
  pub counted : r.rc.num_channels ≤ rc_struct_channels

module _ {F : Type 0} where
  -- A packet with its 24 channels, whatever count it announces, keeps the handler's array at 16 entries
  -- and its channel count within them.
  pub receive-IsWellFormed :
      (r : Rc F) (packet : RcPacket F)
      → length packet.chan ≡ rc_packet_channels
      → IsWellFormed r
      → IsWellFormed (receive r packet)
  unfolding receive
  receive-IsWellFormed r packet p h =
      let len = min packet.n_chan (length r.rc.chan) in
      let open_length = length-append (take len packet.chan) (drop len r.rc.chan) in
      record {
        channels =
            omega (arith, open_length, length-take len packet.chan, length-drop len r.rc.chan);
        counted = omega arith;
      }

module _ {F : Type 0} ⦃fl : Float F⦄ where
  pub new-IsWellFormed : IsWellFormed {F = F} new
  unfolding new
  new-IsWellFormed = record { channels = refl; counted = omega arith }

  -- In a well-formed handler, a channel that passes the guard of the stick and switch reading is an
  -- index inside the channel array.
  pub channel_in_bounds :
      (r : Rc F) (channel : ℤ)
      → IsWellFormed r
      → has_channel r.rc channel ≡ true
      → as_usize channel < length r.rc.chan
  channel_in_bounds r channel w h = ground arith
