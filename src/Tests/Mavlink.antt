-- ===== src/Tests/Mavlink.antt =====
-- The MAVLink parser's theorem at concrete frames.
use veloxity.Base.{◌≡◌, refl, some, [], ◌∷◌, map, arith}
use veloxity.Mavlink.Parser.{MavlinkParser, new, feed_all}
use veloxity.Mavlink.Frame.{Frame, delivered, IsReady}
use veloxity.Mavlink.Crc.{finish_crc, crc_extra, crc_accumulate}
use veloxity.Mavlink.Checksum.{frame_crc, crc_fold}
use veloxity.Mavlink.Stream.{encode_all, stream_delivered}

-- A request to read a parameter, cut to two payload bytes.
abbrev frame : Frame
frame = record {
  sequence = 7;
  system_id = 1;
  component_id = 1;
  message_id = 20;
  payload = 3 ∷ 9 ∷ [];
  crc_low = 30;
  crc_high = 133;
}

stream_delivered_example :
    (q : MavlinkParser) × IsReady q
    × (feed_all new (encode_all (frame ∷ frame ∷ []))
        ≡ some (q, map delivered (frame ∷ frame ∷ [])))
unfolding frame_crc finish_crc crc_extra crc_accumulate crc_fold
stream_delivered_example =
    stream_delivered (frame ∷ frame ∷ []) new (record { sized = refl; waiting = refl })
      (
        record { fits = omega arith; checksum = refl },
        (record { fits = omega arith; checksum = refl }, tt),
      )
