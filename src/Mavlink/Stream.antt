-- ===== src/Mavlink/Stream.antt =====
-- A stream of well-formed frames comes out of `feed_byte` of
-- comms/veloxity_mavlink/src/parser.rs, frame by frame.
use mathlib.Core.Option
use veloxity.Base.{
  ℕ, zero, suc, ◌+◌, ◌≤◌, ◌≡◌, refl, sym, ap, ◌∙◌, none, some, List, [], ◌∷◌, ◌++◌, map, length,
  length-append, append_assoc, append_nil, arith,
}
use veloxity.Mavlink.Parser.{
  max_frame_size_bytes, waiting_for_start, reading_checksum, MavlinkParser, feed_byte, feed_all,
  accept, header_state, reset,
}
use veloxity.Mavlink.RoundTrip.{
  parser_at, with_frame, store-append, feed_all-quiet, feed_all-frame, feed_all-payload,
  feed_all-header,
}
use veloxity.Mavlink.Frame.{
  Frame, header_bytes, encode, IsValid, delivered, IsReady, accept-encode, encode-append,
  length-encode,
}

feed_all-body :
    (fed payload xs tail more : List ℕ)
    → length fed ≡ 6
    → length xs ≡ length payload
    → feed_all (parser_at fed (xs ++ tail) (header_state (length payload))) (payload ++ more)
      ≡ feed_all (parser_at (fed ++ payload) tail (reading_checksum 2)) more
unfolding header_state
feed_all-body fed [] [] tail more g h =
    ap (λ bytes. feed_all (parser_at bytes tail (reading_checksum 2)) more) (sym (append_nil fed))
feed_all-body fed [] (x ∷ xs) tail more g h = absurd (omega arith)
feed_all-body fed (b ∷ bs) xs tail more g h =
    feed_all-payload fed (b ∷ bs) xs tail more (length (b ∷ bs)) (omega arith) (omega arith)
      (omega arith) h

feed_byte-crc_low :
    (fed rest : List ℕ) (x b : ℕ)
    → feed_byte (parser_at fed (x ∷ rest) (reading_checksum 2)) b
      ≡ some (parser_at (fed ++ b ∷ []) rest (reading_checksum 1), none)
unfolding feed_byte accept
feed_byte-crc_low fed rest x b =
    ap (Option.map accept) (store-append fed rest x b (reading_checksum 2) (reading_checksum 2))

feed_byte-crc_high :
    (f : Frame) (rest : List ℕ) (x : ℕ)
    → IsValid f
    → let fed = (header_bytes f ++ f.payload) ++ f.crc_low ∷ [] in
      feed_byte (parser_at fed (x ∷ rest) (reading_checksum 1)) f.crc_high
      ≡ some (reset (parser_at (encode f) rest (reading_checksum 1)), some (delivered f))
unfolding feed_byte encode
feed_byte-crc_high f rest x v =
    let fed = (header_bytes f ++ f.payload) ++ f.crc_low ∷ [] in
    ap (Option.map accept)
      (store-append fed rest x f.crc_high (reading_checksum 1) (reading_checksum 1))
    ∙ ap (λ bytes. some (accept (parser_at bytes rest (reading_checksum 1))))
        (append_assoc (header_bytes f ++ f.payload) (f.crc_low ∷ []) (f.crc_high ∷ []))
    ∙ ap some (accept-encode f rest v)

-- The state after the frame.
abbrev after_frame : Frame → List ℕ → MavlinkParser
after_frame f rest = reset (parser_at (encode f) rest (reading_checksum 1))

feed_all-encode :
    (f : Frame) (pos b0 b1 b2 b3 b4 b5 y z : ℕ) (xs tail more : List ℕ)
    → IsValid f
    → length xs ≡ length f.payload
    → feed_all
        (record {
          frame_buf = b0 ∷ b1 ∷ b2 ∷ b3 ∷ b4 ∷ b5 ∷ xs ++ y ∷ z ∷ tail;
          frame_pos = pos;
          state = waiting_for_start;
        })
        (encode f ++ more)
      ≡ Option.map (with_frame (delivered f)) (feed_all (after_frame f tail) more)
feed_all-encode f pos b0 b1 b2 b3 b4 b5 y z xs tail more v h =
    let front = header_bytes f ++ f.payload in
    ap
      (feed_all (record {
        frame_buf = b0 ∷ b1 ∷ b2 ∷ b3 ∷ b4 ∷ b5 ∷ xs ++ y ∷ z ∷ tail;
        frame_pos = pos;
        state = waiting_for_start;
      }))
      (encode-append f more)
    ∙ feed_all-header pos b0 b1 b2 b3 b4 b5 _ _ _ _ _ (xs ++ y ∷ z ∷ tail) _ v.fits
    ∙ feed_all-body (header_bytes f) f.payload xs (y ∷ z ∷ tail) _ refl h
    ∙ feed_all-quiet _ _ f.crc_low _ (feed_byte-crc_low front (z ∷ tail) y f.crc_low)
    ∙ feed_all-frame _ _ f.crc_high more (delivered f) (feed_byte-crc_high f tail z v)

split :
    (n : ℕ) (bs : List ℕ)
    → n + 2 ≤ length bs
    → (xs : List ℕ) × (y : ℕ) × (z : ℕ) × (tail : List ℕ) × (bs ≡ xs ++ y ∷ z ∷ tail)
      × (length xs ≡ n)
split zero [] h = absurd (omega arith)
split zero (y ∷ []) h = absurd (omega arith)
split zero (y ∷ z ∷ tail) h = ([], y, z, tail, refl, refl)
split (suc n) [] h = absurd (omega arith)
split (suc n) (x ∷ bs) h =
    let (xs, y, z, tail, e, l) = split n bs (omega arith) in
    (x ∷ xs, y, z, tail, ap (λ ys. x ∷ ys) e, ap suc l)

abbrev Delivers : MavlinkParser → Frame → List ℕ → Type 0
Delivers p f more =
    (q : MavlinkParser) × IsReady q
    × (feed_all p (encode f ++ more) ≡ Option.map (with_frame (delivered f)) (feed_all q more))

delivers :
    (buf : List ℕ) (pos : ℕ) (f : Frame) (more : List ℕ)
    → length buf ≡ max_frame_size_bytes
    → IsValid f
    → Delivers (record { frame_buf = buf; frame_pos = pos; state = waiting_for_start }) f more
unfolding reset
delivers [] pos f more h v = absurd (omega arith)
delivers (b0 ∷ []) pos f more h v = absurd (omega arith)
delivers (b0 ∷ b1 ∷ []) pos f more h v = absurd (omega arith)
delivers (b0 ∷ b1 ∷ b2 ∷ []) pos f more h v = absurd (omega arith)
delivers (b0 ∷ b1 ∷ b2 ∷ b3 ∷ []) pos f more h v = absurd (omega arith)
delivers (b0 ∷ b1 ∷ b2 ∷ b3 ∷ b4 ∷ []) pos f more h v = absurd (omega arith)
delivers (b0 ∷ b1 ∷ b2 ∷ b3 ∷ b4 ∷ b5 ∷ bs) pos f more h v =
    let (xs, y, z, tail, e, l) = split (length f.payload) bs (omega (arith, v.fits)) in
    let sizes : length bs ≡ length xs + length (y ∷ z ∷ tail) =
      ap length e ∙ length-append xs (y ∷ z ∷ tail) in
    (
      after_frame f tail,
      record {
        sized = omega (arith, sizes, length-append (encode f) tail, length-encode f);
        waiting = refl;
      },
      ap
            (λ rest.
              feed_all
                (record {
                  frame_buf = b0 ∷ b1 ∷ b2 ∷ b3 ∷ b4 ∷ b5 ∷ rest;
                  frame_pos = pos;
                  state = waiting_for_start;
                })
                (encode f ++ more))
            e
          ∙ feed_all-encode f pos b0 b1 b2 b3 b4 b5 y z xs tail more v l,
    )

feed_all-Delivers :
    (p : MavlinkParser) (f : Frame) (more : List ℕ) → IsReady p → IsValid f → Delivers p f more
feed_all-Delivers p f more ready v =
    let (q, q_ready, e) = delivers p.frame_buf p.frame_pos f more ready.sized v in
    (
      q,
      q_ready,
      ap
            (λ st.
              feed_all (record { frame_buf = p.frame_buf; frame_pos = p.frame_pos; state = st })
                (encode f ++ more))
            ready.waiting
          ∙ e,
    )

unfoldable pub encode_all : List Frame → List ℕ
encode_all [] = []
encode_all (f ∷ fs) = encode f ++ encode_all fs

abbrev pub AllValid : List Frame → Type 0
AllValid [] = Unit {0}
AllValid (f ∷ fs) = IsValid f × AllValid fs

-- A parser that waits for a start byte, fed the bytes of any number of valid frames one after the
-- other, never panics, hands out exactly these frames in their order, and waits again.
pub stream_delivered :
    (fs : List Frame) (p : MavlinkParser)
    → IsReady p
    → AllValid fs
    → (q : MavlinkParser) × IsReady q × (feed_all p (encode_all fs) ≡ some (q, map delivered fs))
unfolding encode_all feed_all
stream_delivered [] p ready v = (p, ready, refl)
stream_delivered (f ∷ fs) p ready v =
    let (q, q_ready, first) = feed_all-Delivers p f (encode_all fs) ready v.0 in
    let (r, r_ready, others) = stream_delivered fs q q_ready v.1 in
    (r, r_ready, first ∙ ap (Option.map (with_frame (delivered f))) others)
