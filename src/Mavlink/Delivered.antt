-- ===== src/Mavlink/Delivered.antt =====
-- The frames that `MavlinkParser` of comms/veloxity_mavlink/src/parser.rs hands out carry their
-- checksum.
use veloxity.Base.{
  ℕ, zero, suc, ◌+◌, ◌-◌, ◌≤◌, ◌<◌, ◌≡◌, refl, sym, ap, ◌∙◌, Option, none, some, List, [], ◌∷◌,
  ◌++◌, length, replicate, get_or, take, arith,
}
use veloxity.Mavlink.Crc.{crc_loop, crc_accumulate, calculate_crc}
use veloxity.Mavlink.Parser.{max_frame_size_bytes, CompleteFrame, received_crc, copy_frame}

-- A frame with a start byte, the length that its second byte says, and its checksum.
pub record IsSound (f : CompleteFrame) : Type 0 where
  pub started : get_or f.bytes 0 0 ≡ 254
  pub complete : f.len ≡ 8 + get_or f.bytes 1 0
  pub checked : received_crc f.bytes f.len ≡ calculate_crc f.bytes (get_or f.bytes 1 0)

abbrev pub AllSound : Option CompleteFrame → Type 0
AllSound none = Unit {0}
AllSound (some f) = IsSound f

get_or-take :
    (xs zs : List ℕ) (n i : ℕ)
    → i < n
    → n ≤ length xs
    → get_or (take n xs ++ zs) i 0 ≡ get_or xs i 0
get_or-take xs zs zero i h g = absurd (omega arith)
get_or-take [] zs (suc n) i h g = absurd (omega arith)
get_or-take (x ∷ xs) zs (suc n) zero h g = refl
get_or-take (x ∷ xs) zs (suc n) (suc i) h g = get_or-take xs zs n i (omega arith) (omega arith)

crc_loop-take :
    (xs zs : List ℕ) (n i count crc : ℕ)
    → i + count ≤ n
    → n ≤ length xs
    → crc_loop (take n xs ++ zs) i count crc ≡ crc_loop xs i count crc
unfolding crc_loop
crc_loop-take xs zs n i zero crc h g = refl
crc_loop-take xs zs n i (suc count) crc h g =
    ap (λ b. crc_loop (take n xs ++ zs) (suc i) count (crc_accumulate b crc))
      (get_or-take xs zs n i (omega arith) g)
    ∙ crc_loop-take xs zs n (suc i) count (crc_accumulate (get_or xs i 0) crc) (omega arith) g

calculate_crc-take :
    (xs zs : List ℕ) (n payload_len : ℕ)
    → 6 + payload_len ≤ n
    → n ≤ length xs
    → calculate_crc (take n xs ++ zs) payload_len ≡ calculate_crc xs payload_len
unfolding calculate_crc
calculate_crc-take xs zs n payload_len h g = cc (
  get_or-take xs zs n 5 (omega arith) g,
  crc_loop-take xs zs n 1 (5 + payload_len) 65535 (omega arith) g,
)

pub copy_frame-IsSound :
    (buf : List ℕ) (pos : ℕ)
    → length buf ≡ max_frame_size_bytes
    → get_or buf 1 0 ≤ 255
    → get_or buf 0 0 ≡ 254
    → pos ≡ 8 + get_or buf 1 0
    → received_crc buf pos ≡ calculate_crc buf (get_or buf 1 0)
    → IsSound (copy_frame buf pos)
unfolding copy_frame received_crc
copy_frame-IsSound buf pos l s start end crc =
    let zs : List ℕ = replicate (max_frame_size_bytes - pos) 0 in
    let first = get_or-take buf zs pos 0 (omega arith) (omega arith) in
    let second = get_or-take buf zs pos 1 (omega arith) (omega arith) in
    let low = get_or-take buf zs pos (pos - 2) (omega arith) (omega arith) in
    let high = get_or-take buf zs pos (pos - 1) (omega arith) (omega arith) in
    let same = calculate_crc-take buf zs pos (get_or buf 1 0) (omega arith) (omega arith) in
    record {
      started = first ∙ start;
      complete = end ∙ ap (λ n. 8 + n) (sym second);
      checked = cc (low, high, second, same, crc);
    }
