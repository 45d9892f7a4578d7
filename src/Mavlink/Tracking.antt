-- ===== src/Mavlink/Tracking.antt =====
-- Where `MavlinkParser` of comms/veloxity_mavlink/src/parser.rs stands in a frame, and that a
-- stored byte keeps it there.
use veloxity.Base.{
  ℕ, zero, suc, ◌+◌, ◌-◌, ◌≤◌, ◌<◌, ◌≡◌, ◌⊎◌, ◌≢◌, refl, ◌∙◌, inl, inr, ◌==◌, Option, none, some,
  List, length, get_or, set, take, drop, length-append, length-take, length-drop, length-set,
  get_or-set_self, get_or-set_ne, Bool-cases, if_elim, leb, ltb, arith,
}
use veloxity.Mavlink.Crc.{calculate_crc}
use veloxity.Mavlink.Parser.{
  max_frame_size_bytes, CompleteFrame, ParseState, waiting_for_start, reading_header,
  reading_payload, reading_checksum, MavlinkParser, accept, header_state, check_frame, reset,
  resync, move_start, find_start, received_crc,
}
use veloxity.Mavlink.Delivered.{AllSound, copy_frame-IsSound}

-- How far the parser is, in each state.
abbrev pub Tracks : ParseState → List ℕ → ℕ → Type 0
Tracks waiting_for_start buf pos = Unit {0}
Tracks reading_header buf pos = (1 ≤ pos) × (pos < 6) × (get_or buf 0 0 ≡ 254)
Tracks (reading_payload n) buf pos =
    (6 ≤ pos) × (pos < 6 + n) × (get_or buf 1 0 ≡ n) × (get_or buf 0 0 ≡ 254)
Tracks (reading_checksum r) buf pos =
    (1 ≤ r) × (r ≤ 2) × (pos + r ≡ 8 + get_or buf 1 0) × (get_or buf 0 0 ≡ 254)

-- The position is where a frame that began at a start byte, and whose length byte is in the buffer,
-- stands.
pub record IsTracking (p : MavlinkParser) : Type 0 where
  pub sized : length p.frame_buf ≡ max_frame_size_bytes
  pub second : get_or p.frame_buf 1 0 ≤ 255
  pub tracks : Tracks p.state p.frame_buf p.frame_pos

-- The parser tracks, or has just moved what follows a failed frame's next start byte to the front.
abbrev pub Outcome : MavlinkParser × Option CompleteFrame → Type 0
Outcome (q, frame) =
    (IsTracking q
      ⊎ ((q.state ≡ reading_header)
          × (length q.frame_buf ≡ max_frame_size_bytes)
          × (q.frame_pos ≤ 262)))
    × AllSound frame

find_start-bound :
    (buf : List ℕ) (i count j : ℕ) → find_start buf i count ≡ some j → (i ≤ j) × (j < i + count)
unfolding find_start
find_start-bound buf i zero j h = ground arith
find_start-bound buf i (suc count) j h = ground (arith, find_start-bound buf (suc i) count j)

move_start-Outcome :
    (p : MavlinkParser) (start : Option ℕ)
    → length p.frame_buf ≡ max_frame_size_bytes
    → get_or p.frame_buf 1 0 ≤ 255
    → p.frame_pos ≤ 263
    → find_start p.frame_buf 1 (p.frame_pos - 1) ≡ start
    → Outcome (move_start p start, none)
unfolding move_start reset
move_start-Outcome p none l s b e = (inl (record { sized = l; second = s; tracks = tt }), tt)
move_start-Outcome p (some j) l s b e =
    let buf = p.frame_buf in
    let bound = find_start-bound buf 1 (p.frame_pos - 1) j e in
    let rest = p.frame_pos - j in
    (
      inr (
        refl,
        omega (
          arith,
          bound,
          length-append (take rest (drop j buf)) (drop rest buf),
          length-take rest (drop j buf),
          length-drop j buf,
          length-drop rest buf,
        ),
        omega (arith, bound),
      ),
      tt,
    )

check_frame-Outcome :
    (p : MavlinkParser)
    → length p.frame_buf ≡ max_frame_size_bytes
    → get_or p.frame_buf 1 0 ≤ 255
    → get_or p.frame_buf 0 0 ≡ 254
    → p.frame_pos ≡ 8 + get_or p.frame_buf 1 0
    → Outcome (check_frame p)
unfolding check_frame reset resync
check_frame-Outcome p l s start end =
    let received = received_crc p.frame_buf p.frame_pos in
    let calculated = calculate_crc p.frame_buf (get_or p.frame_buf 1 0) in
    elim (Bool-cases (received == calculated)) [
      | inl same ↦ rw same (
        inl (record { sized = l; second = s; tracks = tt }),
        copy_frame-IsSound p.frame_buf p.frame_pos l s start end (ground arith),
      )
      | inr other ↦ rw other (move_start-Outcome p _ l s (omega arith) refl)
    ]

-- The buffer after a write at a position past the start byte.
pub record Written (buf : List ℕ) (pos b : ℕ) : Type 0 where
  pub sized : length (set buf pos b) ≡ max_frame_size_bytes
  pub second : get_or (set buf pos b) 1 0 ≤ 255
  pub kept : (pos ≡ 1) ⊎ (get_or (set buf pos b) 1 0 ≡ get_or buf 1 0)
  pub started : get_or (set buf pos b) 0 0 ≡ get_or buf 0 0

pub set-Written :
    (buf : List ℕ) (pos b : ℕ)
    → length buf ≡ max_frame_size_bytes
    → get_or buf 1 0 ≤ 255
    → b ≤ 255
    → 1 ≤ pos
    → pos < max_frame_size_bytes
    → Written buf pos b
set-Written buf pos b l s h g k =
    let kept_if : (pos ≡ 1) ⊎ (get_or (set buf pos b) 1 0 ≡ get_or buf 1 0) =
      elim (Bool-cases (pos == 1)) [
        | inl one ↦ inl (ground arith)
        | inr other ↦ inr (get_or-set_ne buf pos 1 b 0 (ground arith))
      ] in
    record {
      sized = length-set buf pos b ∙ l;
      second = ground (arith, kept_if, get_or-set_self buf pos b 0 (omega arith));
      kept = kept_if;
      started = get_or-set_ne buf pos 0 b 0 (ground arith);
    }

header_state-Tracks :
    (n : ℕ) (buf : List ℕ) (pos : ℕ)
    → pos ≡ 6
    → get_or buf 1 0 ≡ n
    → get_or buf 0 0 ≡ 254
    → Tracks (header_state n) buf pos
unfolding header_state
header_state-Tracks zero buf pos p e s = (omega arith, omega arith, omega arith, s)
header_state-Tracks (suc n) buf pos p e s = (omega arith, omega arith, e, s)

pub accept-Outcome :
    (st : ParseState) (buf : List ℕ) (pos b : ℕ)
    → st ≢ waiting_for_start
    → Tracks st buf pos
    → Written buf pos b
    → Outcome (accept (record { frame_buf = set buf pos b; frame_pos = pos + 1; state = st }))
unfolding accept reset
accept-Outcome waiting_for_start buf pos b ne t w = absurd (ne refl)
accept-Outcome reading_header buf pos b ne t w =
    let start = w.started ∙ t.2 in
    if_elim (λ q. Outcome (q, none)) (leb 6 (pos + 1))
      (λ six.
        if_elim (λ q. Outcome (q, none)) (ltb 255 (get_or (set buf pos b) 1 0))
          (λ big. (inl (record { sized = w.sized; second = w.second; tracks = tt }), tt))
          (λ small. (
            inl (record {
              sized = w.sized;
              second = w.second;
              tracks =
                  header_state-Tracks (get_or (set buf pos b) 1 0) (set buf pos b) (pos + 1)
                    (ground arith) refl start;
            }),
            tt,
          )))
      (λ short. (
        inl (record {
          sized = w.sized;
          second = w.second;
          tracks = (omega arith, ground arith, start);
        }),
        tt,
      ))
accept-Outcome (reading_payload n) buf pos b ne t w =
    let start = w.started ∙ t.3 in
    let len : get_or (set buf pos b) 1 0 ≡ n = ground (arith, w.kept, t) in
    if_elim (λ q. Outcome (q, none)) (leb n (pos + 1 - 6))
      (λ done. (
        inl (record {
          sized = w.sized;
          second = w.second;
          tracks = (omega arith, omega arith, ground arith, start);
        }),
        tt,
      ))
      (λ more. (
        inl (record {
          sized = w.sized;
          second = w.second;
          tracks = (omega arith, ground arith, len, start);
        }),
        tt,
      ))
accept-Outcome (reading_checksum r) buf pos b ne t w =
    let start = w.started ∙ t.3 in
    let end : pos + r ≡ 8 + get_or (set buf pos b) 1 0 = ground (arith, w.kept, t) in
    if_elim Outcome (r == 1)
      (λ last.
        check_frame-Outcome
          (record { frame_buf = set buf pos b; frame_pos = pos + 1; state = reading_checksum r })
          w.sized w.second start (ground arith))
      (λ first. (
        inl (record {
          sized = w.sized;
          second = w.second;
          tracks = (ground arith, omega arith, ground arith, start);
        }),
        tt,
      ))
