-- ===== src/Mavlink/Parser.antt =====
-- `MavlinkParser` of comms/veloxity_mavlink/src/parser.rs.
use mathlib.Core.Option
use veloxity.Base.{
  ℕ, zero, suc, ◌+◌, ◌-◌, ◌*◌, bit_or, Option, none, some, List, [], ◌∷◌, ◌++◌, get_or, take, drop,
  replicate, write, leb, ltb, ◌==◌, if◌then◌else◌,
}
use veloxity.Mavlink.Crc.{calculate_crc}

abbrev pub max_frame_size_bytes : ℕ
max_frame_size_bytes = 280

pub record CompleteFrame : Type 0 where
  pub bytes : List ℕ
  pub len : ℕ

pub data ParseState : Type 0 where
  waiting_for_start : ParseState
  reading_header : ParseState
  reading_payload : ℕ → ParseState
  reading_checksum : ℕ → ParseState

pub record MavlinkParser : Type 0 where
  pub frame_buf : List ℕ
  pub frame_pos : ℕ
  pub state : ParseState

abbrev pub new : MavlinkParser
new = record {
  frame_buf = replicate max_frame_size_bytes 0;
  frame_pos = 0;
  state = waiting_for_start;
}

unfoldable pub reset : MavlinkParser → MavlinkParser
reset p = record p { frame_pos = 0; state = waiting_for_start }

-- The first index from `i` on, among `count`, that holds a start byte.
unfoldable pub find_start : List ℕ → ℕ → ℕ → Option ℕ
find_start buf i zero = none
find_start buf i (suc count) =
    let later = find_start buf (suc i) count in if get_or buf i 0 == 254 then some i else later

-- What follows the next start byte, if there is one, is moved to the front.
unfoldable pub move_start : MavlinkParser → Option ℕ → MavlinkParser
unfolding reset
move_start p none = reset p
move_start p (some start_pos) =
    let remaining = p.frame_pos - start_pos in
    record {
      frame_buf = take remaining (drop start_pos p.frame_buf) ++ drop remaining p.frame_buf;
      frame_pos = remaining;
      state = reading_header;
    }

-- A failed checksum.
unfoldable pub resync : MavlinkParser → MavlinkParser
unfolding move_start
resync p = move_start p (find_start p.frame_buf 1 (p.frame_pos - 1))

-- `(crc_high as u16) << 8 | (crc_low as u16)` of the last two bytes.
unfoldable pub received_crc : List ℕ → ℕ → ℕ
received_crc buf pos = bit_or (get_or buf (pos - 1) 0 * 256) (get_or buf (pos - 2) 0)

-- The frame's bytes, copied to the front of an array of zeros.
unfoldable pub copy_frame : List ℕ → ℕ → CompleteFrame
copy_frame buf len = record {
  bytes = take len buf ++ replicate (max_frame_size_bytes - len) 0;
  len = len;
}

-- The last checksum byte is in the buffer.
unfoldable pub check_frame : MavlinkParser → MavlinkParser × Option CompleteFrame
check_frame p =
    if received_crc p.frame_buf p.frame_pos == calculate_crc p.frame_buf (get_or p.frame_buf 1 0)
    then (reset p, some (copy_frame p.frame_buf p.frame_pos))
    else (resync p, none)

-- What follows a header that is complete.
unfoldable pub header_state : ℕ → ParseState
header_state zero = reading_checksum 2
header_state (suc n) = reading_payload (suc n)

-- The state's work after the byte is stored and the position advanced.
unfoldable pub accept : MavlinkParser → MavlinkParser × Option CompleteFrame
accept p = elim p.state [
  | waiting_for_start ↦ (p, none)
  | reading_header ↦ (
    if leb 6 p.frame_pos
        then if ltb 255 (get_or p.frame_buf 1 0)
          then reset p
          else record p { state = header_state (get_or p.frame_buf 1 0) }
        else p,
    none,
  )
  | reading_payload expected_len ↦ (
    if leb expected_len (p.frame_pos - 6) then record p { state = reading_checksum 2 } else p,
    none,
  )
  | reading_checksum bytes_remaining ↦
      if bytes_remaining == 1
      then check_frame p
      else (record p { state = reading_checksum (bytes_remaining - 1) }, none)
]

-- The byte is stored at the position; beyond the buffer the index panics, which is `none`.
unfoldable pub store : MavlinkParser → ℕ → ParseState → Option MavlinkParser
store p byte state =
    Option.map (λ buf. record { frame_buf = buf; frame_pos = p.frame_pos + 1; state = state })
      (write p.frame_buf p.frame_pos byte)

-- `none` is a panic.
unfoldable pub feed_byte : MavlinkParser → ℕ → Option (MavlinkParser × Option CompleteFrame)
feed_byte p byte = elim p.state [
  | waiting_for_start ↦
      if byte == 254
      then Option.map (λ q. (q, none)) (store (record p { frame_pos = 0 }) byte reading_header)
      else some (p, none)
  | state ↦ Option.map accept (store p byte state)
]

abbrev pub collect : {A : Type 0} → Option A → List A → List A
collect none xs = xs
collect (some x) xs = x ∷ xs

-- The bytes in turn, as `process_bytes` feeds them, with the frames that come out.
unfoldable pub feed_all : MavlinkParser → List ℕ → Option (MavlinkParser × List CompleteFrame)
feed_all p [] = some (p, [])
feed_all p (byte ∷ bytes) =
    Option.bind (feed_byte p byte)
      (λ out. Option.map (λ rest. (rest.0, collect out.1 rest.1)) (feed_all out.0 bytes))
