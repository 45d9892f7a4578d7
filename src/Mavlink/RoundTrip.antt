-- ===== src/Mavlink/RoundTrip.antt =====
-- A frame that is fed byte by byte comes out: `feed_byte` of
-- comms/veloxity_mavlink/src/parser.rs.
use mathlib.Core.Option
use veloxity.Base.{
  ℕ, ◌+◌, ◌≤◌, ◌<◌, ◌≡◌, refl, sym, ap, ◌∙◌, Option, none, some, List, [], ◌∷◌, ◌++◌, length,
  length-append, write-append, append_assoc, arith,
}
use veloxity.Mavlink.Parser.{
  CompleteFrame, ParseState, waiting_for_start, reading_payload, reading_checksum, MavlinkParser,
  feed_byte, feed_all, store, accept, header_state, collect,
}

-- The parser whose buffer begins with the bytes fed since the start byte.
abbrev pub parser_at : List ℕ → List ℕ → ParseState → MavlinkParser
parser_at fed rest state = record { frame_buf = fed ++ rest; frame_pos = length fed; state = state }

pub store-append :
    (fed rest : List ℕ) (x b : ℕ) (before after : ParseState)
    → store (parser_at fed (x ∷ rest) before) b after ≡ some (parser_at (fed ++ b ∷ []) rest after)
unfolding store
store-append fed rest x b before after =
    ap (Option.map (λ buf. record { frame_buf = buf; frame_pos = length fed + 1; state = after }))
      (write-append fed rest x b)
    ∙ ap some (
        ap (λ pos. record { frame_buf = fed ++ b ∷ rest; frame_pos = pos; state = after })
          (sym (length-append fed (b ∷ [])))
        ∙ ap (λ buf. record { frame_buf = buf; frame_pos = length (fed ++ b ∷ []); state = after })
            (sym (append_assoc fed (b ∷ []) rest)))

pub feed_all-quiet :
    (p q : MavlinkParser) (b : ℕ) (bs : List ℕ)
    → feed_byte p b ≡ some (q, none)
    → feed_all p (b ∷ bs) ≡ feed_all q bs
unfolding feed_all Option.bind
feed_all-quiet p q b bs e =
    ap
      (λ o.
        Option.bind o
          (λ out. Option.map (λ rest. (rest.0, collect out.1 rest.1)) (feed_all out.0 bs)))
      e
    ∙ map_id (feed_all q bs)
  where
    map_id : {A : Type 0} (o : Option A) → Option.map (λ a. a) o ≡ o
    map_id none = refl
    map_id (some a) = refl

abbrev pub with_frame :
    CompleteFrame → MavlinkParser × List CompleteFrame → MavlinkParser × List CompleteFrame
with_frame frame (p, frames) = (p, frame ∷ frames)

pub feed_all-frame :
    (p q : MavlinkParser) (b : ℕ) (bs : List ℕ) (frame : CompleteFrame)
    → feed_byte p b ≡ some (q, some frame)
    → feed_all p (b ∷ bs) ≡ Option.map (with_frame frame) (feed_all q bs)
unfolding feed_all Option.bind
feed_all-frame p q b bs frame e =
    ap
      (λ o.
        Option.bind o
          (λ out. Option.map (λ rest. (rest.0, collect out.1 rest.1)) (feed_all out.0 bs)))
      e

feed_byte-payload :
    (fed rest : List ℕ) (x b n : ℕ)
    → 6 ≤ length fed
    → length fed + 1 < 6 + n
    → feed_byte (parser_at fed (x ∷ rest) (reading_payload n)) b
      ≡ some (parser_at (fed ++ b ∷ []) rest (reading_payload n), none)
unfolding feed_byte accept
feed_byte-payload fed rest x b n g h =
    ap (Option.map accept) (store-append fed rest x b (reading_payload n) (reading_payload n))
    ∙ ground (arith, length-append fed (b ∷ []))

feed_byte-payload_end :
    (fed rest : List ℕ) (x b n : ℕ)
    → length fed + 1 ≡ 6 + n
    → feed_byte (parser_at fed (x ∷ rest) (reading_payload n)) b
      ≡ some (parser_at (fed ++ b ∷ []) rest (reading_checksum 2), none)
unfolding feed_byte accept
feed_byte-payload_end fed rest x b n h =
    ap (Option.map accept) (store-append fed rest x b (reading_payload n) (reading_payload n))
    ∙ ground (arith, length-append fed (b ∷ []))

-- The payload's bytes are stored in turn, after which the checksum is awaited.
pub feed_all-payload :
    (fed payload rest tail more : List ℕ) (n : ℕ)
    → 1 ≤ length payload
    → 6 ≤ length fed
    → length fed + length payload ≡ 6 + n
    → length rest ≡ length payload
    → feed_all (parser_at fed (rest ++ tail) (reading_payload n)) (payload ++ more)
      ≡ feed_all (parser_at (fed ++ payload) tail (reading_checksum 2)) more
feed_all-payload fed [] rest tail more n h g e r = absurd (omega arith)
feed_all-payload fed (b ∷ bs) [] tail more n h g e r = absurd (omega arith)
feed_all-payload fed (b ∷ []) (x ∷ []) tail more n h g e r =
    feed_all-quiet _ _ b more (feed_byte-payload_end fed tail x b n (omega arith))
feed_all-payload fed (b ∷ []) (x ∷ y ∷ rest) tail more n h g e r = absurd (omega arith)
feed_all-payload fed (b ∷ c ∷ bs) (x ∷ rest) tail more n h g e r =
    let longer = length-append fed (b ∷ []) in
    feed_all-quiet _ _ b (c ∷ bs ++ more)
      (feed_byte-payload fed (rest ++ tail) x b n g (omega arith))
    ∙ feed_all-payload (fed ++ b ∷ []) (c ∷ bs) rest tail more n (omega arith)
        (omega (arith, longer)) (omega (arith, longer)) (omega arith)
    ∙ ap (λ bytes. feed_all (parser_at bytes tail (reading_checksum 2)) more)
        (append_assoc fed (b ∷ []) (c ∷ bs))

-- The five header bytes after the start byte.
pub feed_all-header :
    (pos b0 b1 b2 b3 b4 b5 len seq sys comp msg : ℕ) (rest more : List ℕ)
    → len ≤ 255
    → feed_all
        (record {
          frame_buf = b0 ∷ b1 ∷ b2 ∷ b3 ∷ b4 ∷ b5 ∷ rest;
          frame_pos = pos;
          state = waiting_for_start;
        })
        (254 ∷ len ∷ seq ∷ sys ∷ comp ∷ msg ∷ more)
      ≡ feed_all (parser_at (254 ∷ len ∷ seq ∷ sys ∷ comp ∷ msg ∷ []) rest (header_state len)) more
unfolding feed_byte store accept
feed_all-header pos b0 b1 b2 b3 b4 b5 len seq sys comp msg rest more h =
    feed_all-quiet _ _ 254 _ refl
    ∙ feed_all-quiet _ _ len _ refl
    ∙ feed_all-quiet _ _ seq _ refl
    ∙ feed_all-quiet _ _ sys _ refl
    ∙ feed_all-quiet _ _ comp _ refl
    ∙ feed_all-quiet _ _ msg _ (ground arith)
