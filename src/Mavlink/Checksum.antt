-- ===== src/Mavlink/Checksum.antt =====
-- The checksum loop of comms/veloxity_mavlink/src/parser.rs against a fold over the frame's bytes.
use veloxity.Base.{
  ℕ, zero, suc, ◌+◌, ◌≤◌, ◌≡◌, refl, ap, ◌∙◌, List, [], ◌∷◌, ◌++◌, length, get_or, take,
  take-append, length-append, arith,
}
use veloxity.Mavlink.Crc.{crc_accumulate, crc_loop, finish_crc, calculate_crc}

unfoldable pub crc_fold : List ℕ → ℕ → ℕ
crc_fold [] crc = crc
crc_fold (b ∷ bs) crc = crc_fold bs (crc_accumulate b crc)

-- The checksum of a frame: its bytes after the start byte and before the checksum, then the
-- message's extra byte.
unfoldable pub frame_crc : ℕ → List ℕ → ℕ
frame_crc msg_id bytes = finish_crc msg_id (crc_fold bytes 65535)

crc_loop-cons :
    (b : ℕ) (bs : List ℕ) (i count crc : ℕ)
    → crc_loop (b ∷ bs) (suc i) count crc ≡ crc_loop bs i count crc
unfolding crc_loop
crc_loop-cons b bs i zero crc = refl
crc_loop-cons b bs i (suc count) crc =
    crc_loop-cons b bs (suc i) count (crc_accumulate (get_or bs i 0) crc)

pub crc_loop-fold :
    (bs : List ℕ) (count crc : ℕ)
    → count ≤ length bs
    → crc_loop bs 0 count crc ≡ crc_fold (take count bs) crc
unfolding crc_loop crc_fold
crc_loop-fold bs zero crc h = refl
crc_loop-fold [] (suc count) crc h = absurd (omega arith)
crc_loop-fold (b ∷ bs) (suc count) crc h =
    crc_loop-cons b bs 0 count (crc_accumulate b crc)
    ∙ crc_loop-fold bs count (crc_accumulate b crc) (omega arith)

pub calculate_crc-frame :
    (start len seq sys comp msg : ℕ) (payload rest : List ℕ)
    → calculate_crc (start ∷ len ∷ seq ∷ sys ∷ comp ∷ msg ∷ payload ++ rest) (length payload)
      ≡ frame_crc msg (len ∷ seq ∷ sys ∷ comp ∷ msg ∷ payload)
unfolding calculate_crc frame_crc
calculate_crc-frame start len seq sys comp msg payload rest =
    let head = len ∷ seq ∷ sys ∷ comp ∷ msg ∷ payload in
    let count : 5 + length payload ≡ length head = omega arith in
    ap (finish_crc msg) (
      crc_loop-cons start (head ++ rest) 0 (5 + length payload) 65535
      ∙ crc_loop-fold (head ++ rest) (5 + length payload) 65535
          (omega (arith, length-append head rest))
      ∙ ap (λ n. crc_fold (take n (head ++ rest)) 65535) count
      ∙ ap (λ bs. crc_fold bs 65535) (take-append head rest))
