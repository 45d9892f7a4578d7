-- ===== src/Mavlink/Frame.antt =====
-- The frames on the wire, and how `MavlinkParser` of comms/veloxity_mavlink/src/parser.rs
-- recognises one that its buffer holds.
use veloxity.Base.{
  ℕ, suc, ◌+◌, ◌-◌, ◌*◌, ◌≤◌, ◌≡◌, ap, ◌∙◌, bit_or, some, List, [], ◌∷◌, ◌++◌, length, replicate,
  get_or, length-append, append_assoc, take-append, arith,
}
use veloxity.Mavlink.Crc.{calculate_crc}
use veloxity.Mavlink.Checksum.{frame_crc, calculate_crc-frame}
use veloxity.Mavlink.Parser.{
  max_frame_size_bytes, CompleteFrame, waiting_for_start, reading_checksum, MavlinkParser, accept,
  check_frame, reset, received_crc, copy_frame,
}
use veloxity.Mavlink.RoundTrip.{parser_at}

-- A frame of the first protocol version, and its bytes on the wire.
pub record Frame : Type 0 where
  pub sequence : ℕ
  pub system_id : ℕ
  pub component_id : ℕ
  pub message_id : ℕ
  pub payload : List ℕ
  pub crc_low : ℕ
  pub crc_high : ℕ

abbrev pub header_bytes : Frame → List ℕ
header_bytes f =
    254 ∷ length f.payload ∷ f.sequence ∷ f.system_id ∷ f.component_id ∷ f.message_id ∷ []

unfoldable pub encode : Frame → List ℕ
encode f = header_bytes f ++ f.payload ++ f.crc_low ∷ f.crc_high ∷ []

-- The payload's length is a byte, and the last two bytes are the checksum, the low one first.
pub record IsValid (f : Frame) : Type 0 where
  pub fits : length f.payload ≤ 255
  pub checksum :
      bit_or (f.crc_high * 256) f.crc_low
      ≡ frame_crc f.message_id
          (length f.payload ∷ f.sequence ∷ f.system_id ∷ f.component_id ∷ f.message_id ∷ f.payload)

-- The frame's bytes at the front of the array that the parser hands out.
unfoldable pub delivered : Frame → CompleteFrame
delivered f = record {
  bytes = encode f ++ replicate (max_frame_size_bytes - length (encode f)) 0;
  len = length (encode f);
}

-- The parser waits for a start byte, as after `new` and after `reset`.
pub record IsReady (p : MavlinkParser) : Type 0 where
  pub sized : length p.frame_buf ≡ max_frame_size_bytes
  pub waiting : p.state ≡ waiting_for_start

get_or-at : (bs cs : List ℕ) (i : ℕ) → get_or (bs ++ cs) (i + length bs) 0 ≡ get_or cs i 0
get_or-at [] cs i = ap (λ n. get_or cs n 0) (omega arith)
get_or-at (b ∷ bs) cs i = ap (λ n. get_or (b ∷ bs ++ cs) n 0) plus ∙ get_or-at bs cs i
  where
    plus : i + length (b ∷ bs) ≡ suc (i + length bs)
    plus = omega arith

-- Where the bytes of the frame's checksum stand.
pub encode-append :
    (f : Frame) (rest : List ℕ)
    → encode f ++ rest ≡ header_bytes f ++ f.payload ++ f.crc_low ∷ f.crc_high ∷ rest
unfolding encode
encode-append f rest =
    ap (λ bytes. header_bytes f ++ bytes)
      (append_assoc f.payload (f.crc_low ∷ f.crc_high ∷ []) rest)

pub length-encode : (f : Frame) → length (encode f) ≡ 8 + length f.payload
unfolding encode
length-encode f = omega (arith, length-append f.payload (f.crc_low ∷ f.crc_high ∷ []))

get_or-encode :
    (f : Frame) (rest : List ℕ) (i : ℕ)
    → get_or (encode f ++ rest) (i + length (header_bytes f ++ f.payload)) 0
      ≡ get_or (f.crc_low ∷ f.crc_high ∷ rest) i 0
get_or-encode f rest i =
    let front = header_bytes f ++ f.payload in
    ap (λ bytes. get_or bytes (i + length front) 0) (encode-append f rest)
    ∙ get_or-at front (f.crc_low ∷ f.crc_high ∷ rest) i

received_crc-encode :
    (f : Frame) (rest : List ℕ)
    → received_crc (encode f ++ rest) (length (encode f)) ≡ bit_or (f.crc_high * 256) f.crc_low
unfolding received_crc
received_crc-encode f rest =
    let front = length (header_bytes f ++ f.payload) in
    let high : length (encode f) - 1 ≡ 1 + front = omega (arith, length-encode f) in
    let low : length (encode f) - 2 ≡ 0 + front = omega (arith, length-encode f) in
    ground (arith, high, low, get_or-encode f rest 0, get_or-encode f rest 1)

calculate_crc-encode :
    (f : Frame) (rest : List ℕ)
    → calculate_crc (encode f ++ rest) (length f.payload)
      ≡ frame_crc f.message_id
          (length f.payload ∷ f.sequence ∷ f.system_id ∷ f.component_id ∷ f.message_id ∷ f.payload)
calculate_crc-encode f rest =
    ap (λ bytes. calculate_crc bytes (length f.payload)) (encode-append f rest)
    ∙ calculate_crc-frame 254 (length f.payload) f.sequence f.system_id f.component_id f.message_id
        f.payload (f.crc_low ∷ f.crc_high ∷ rest)

pub accept-encode :
    (f : Frame) (rest : List ℕ)
    → IsValid f
    → accept (parser_at (encode f) rest (reading_checksum 1))
      ≡ (reset (parser_at (encode f) rest (reading_checksum 1)), some (delivered f))
unfolding accept check_frame copy_frame delivered
accept-encode f rest v =
    let second : get_or (encode f ++ rest) 1 0 ≡ length f.payload =
      ap (λ bytes. get_or bytes 1 0) (encode-append f rest) in
    ground (
      arith,
      second,
      v.checksum,
      received_crc-encode f rest,
      calculate_crc-encode f rest,
      take-append (encode f) rest,
    )
