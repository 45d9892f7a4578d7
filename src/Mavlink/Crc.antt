-- ===== src/Mavlink/Crc.antt =====
-- The frame checksum of comms/veloxity_mavlink/src/parser.rs.
use veloxity.Base.{
  ℕ, zero, suc, ◌+◌, ◌*◌, ◌/◌, ◌%◌, bit_xor, List, [], ◌∷◌, get_or, ◌==◌, if◌then◌else◌,
}

-- `tmp as u16` fits, so its shift by 8 loses nothing; the u8 shift by 4 wraps.
unfoldable pub crc_accumulate : ℕ → ℕ → ℕ
crc_accumulate byte crc =
    let low = bit_xor byte (crc % 256) in
    let tmp = bit_xor low (low * 16 % 256) in
    bit_xor (bit_xor (bit_xor (crc / 256) (tmp * 256 % 65536)) (tmp * 8 % 65536)) (tmp / 16)

-- The message ids with their extra bytes.
abbrev crc_extras : List (ℕ × ℕ)
crc_extras =
    (0, 50)
    ∷ (20, 214)
    ∷ (21, 159)
    ∷ (22, 220)
    ∷ (23, 168)
    ∷ (31, 246)
    ∷ (65, 118)
    ∷ (111, 34)
    ∷ (180, 90)
    ∷ (181, 67)
    ∷ (182, 218)
    ∷ (183, 206)
    ∷ (184, 169)
    ∷ (187, 60)
    ∷ (188, 249)
    ∷ (189, 113)
    ∷ (190, 181)
    ∷ (191, 12)
    ∷ (192, 134)
    ∷ (193, 1)
    ∷ (195, 65)
    ∷ (196, 10)
    ∷ (197, 221)
    ∷ (199, 48)
    ∷ (253, 83)
    ∷ []

abbrev lookup_extra : ℕ → List (ℕ × ℕ) → ℕ
lookup_extra msg_id [] = 0
lookup_extra msg_id ((id, extra) ∷ rows) =
    let later = lookup_extra msg_id rows in if msg_id == id then extra else later

-- The message's extra byte; a message without one has 0.
unfoldable pub crc_extra : ℕ → ℕ
crc_extra msg_id = lookup_extra msg_id crc_extras

-- The extra byte is added where there is one.
unfoldable pub finish_crc : ℕ → ℕ → ℕ
finish_crc msg_id crc =
    let extra = crc_extra msg_id in if extra == 0 then crc else crc_accumulate extra crc

-- `for i in start..start + count`, each index inside the buffer.
unfoldable pub crc_loop : List ℕ → ℕ → ℕ → ℕ → ℕ
crc_loop buf i zero crc = crc
crc_loop buf i (suc count) crc = crc_loop buf (suc i) count (crc_accumulate (get_or buf i 0) crc)

unfoldable pub calculate_crc : List ℕ → ℕ → ℕ
calculate_crc frame_buf payload_len =
    finish_crc (get_or frame_buf 5 0) (crc_loop frame_buf 1 (5 + payload_len) 65535)
