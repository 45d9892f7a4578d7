-- ===== src/Log/Truncation.antt =====
-- What text an entry of crates/veloxity_core/src/log.rs holds.
use veloxity.Base.{
  ℕ, ◌+◌, ◌-◌, ◌≤◌, ◌≡◌, refl, sym, ap, ◌∙◌, List, [], ◌∷◌, ◌++◌, length, take, drop, min,
  length-append, length-take, length-drop, append_assoc, append_nil, take-append, take-append_long,
  take-append_short, take-min, take_all, arith, if_elim,
}
use veloxity.Log.Text.{
  max_log_len, LogString, Severity, new_string, empty_entry, as_str, write_str, write_fmt,
  log_entry,
}

unfoldable pub concat : List (List ℕ) → List ℕ
concat [] = []
concat (piece ∷ pieces) = piece ++ concat pieces

pub record IsWellFormed (s : LogString) : Type 0 where
  pub sized : length s.buffer ≡ max_log_len
  pub fits : s.len ≤ max_log_len

module _ (s : LogString) (bytes : List ℕ) (w : IsWellFormed s) where
  length-as_str : length (as_str s) ≡ s.len
  unfolding as_str
  length-as_str = omega (arith, length-take s.len s.buffer, w.sized, w.fits)

  write_str-IsWellFormed : IsWellFormed (write_str s bytes).0
  unfolding write_str
  write_str-IsWellFormed =
      let copy = min (length bytes) (max_log_len - s.len) in
      let back = drop (s.len + copy) s.buffer in
      record {
        sized = omega (
          arith,
          length-append (take s.len s.buffer ++ take copy bytes) back,
          length-append (take s.len s.buffer) (take copy bytes),
          length-take s.len s.buffer,
          length-take copy bytes,
          length-drop (s.len + copy) s.buffer,
          w.sized,
          w.fits,
        );
        fits = omega (arith, w.fits);
      }

  -- The text after a write is the text before with the bytes, cut at 50 bytes.
  write_str-as_str : as_str (write_str s bytes).0 ≡ take max_log_len (as_str s ++ bytes)
  unfolding write_str as_str
  write_str-as_str =
      let room = max_log_len - s.len in
      let copy = min (length bytes) room in
      let old = take s.len s.buffer in
      let back = drop (s.len + copy) s.buffer in
      let written : length (old ++ take copy bytes) ≡ s.len + copy = omega (
        arith,
        length-append old (take copy bytes),
        length-take s.len s.buffer,
        length-take copy bytes,
        w.sized,
        w.fits,
      ) in
      ap (λ n. take n ((old ++ take copy bytes) ++ back)) (sym written)
      ∙ take-append (old ++ take copy bytes) back
      ∙ ap (λ bs. old ++ bs) (take-min room bytes)
      ∙ ap (λ n. old ++ take n bytes) (omega (arith, length-take s.len s.buffer, w.sized, w.fits))
      ∙ sym (take-append_short max_log_len old bytes (omega (arith, length-as_str, w.fits)))

write_fmt-as_str :
    (s : LogString) (pieces : List (List ℕ))
    → IsWellFormed s
    → as_str (write_fmt s pieces) ≡ take max_log_len (as_str s ++ concat pieces)
unfolding write_fmt concat write_str
write_fmt-as_str s [] w = sym (
    take_all max_log_len (as_str s ++ [])
      (omega (arith, length-append (as_str s) [], length-as_str s [] w, w.fits))
    ∙ append_nil (as_str s))
write_fmt-as_str s (piece ∷ pieces) w =
    let text = as_str s ++ piece in
    let size = length-append (as_str s) piece in
    let whole = append_assoc (as_str s) piece (concat pieces) in
    if_elim (λ r. as_str r ≡ take max_log_len (as_str s ++ (piece ++ concat pieces)))
      (write_str s piece).1
      (λ ok.
        write_fmt-as_str (write_str s piece).0 pieces (write_str-IsWellFormed s piece w)
        ∙ ap (λ bs. take max_log_len (bs ++ concat pieces))
            (write_str-as_str s piece w
              ∙ take_all max_log_len text (ground (arith, size, length-as_str s piece w, w.fits)))
        ∙ ap (take max_log_len) whole)
      (λ cut.
        write_str-as_str s piece w
        ∙ sym (
            take-append_long max_log_len text (concat pieces)
              (ground (arith, size, length-as_str s piece w, w.fits)))
        ∙ ap (take max_log_len) whole)

-- A queued entry holds the formatted text, whatever pieces it is written in, cut at 50 bytes.
pub log_entry_text :
    (severity : Severity) (pieces : List (List ℕ))
    → as_str (log_entry severity pieces).message ≡ take max_log_len (concat pieces)
unfolding log_entry empty_entry new_string as_str
log_entry_text severity pieces =
    write_fmt-as_str new_string pieces (record { sized = refl; fits = omega arith })
