-- ===== src/Log/Text.antt =====
-- `LogString` and `LogEntry` of crates/veloxity_core/src/log.rs, with the text that `write_fmt` writes.
use veloxity.Base.{
  ℕ, ◌+◌, ◌-◌, Bool, not, List, [], ◌∷◌, ◌++◌, length, take, drop, replicate, min, ltb,
  if◌then◌else◌,
}

abbrev pub max_log_len : ℕ
max_log_len = 50

pub data Severity : Type 0 where
  emergency alert critical error warning notice info debug : Severity

pub record LogString : Type 0 where
  pub buffer : List ℕ
  pub len : ℕ

pub record LogEntry : Type 0 where
  pub severity : Severity
  pub message : LogString

unfoldable pub new_string : LogString
new_string = record { buffer = replicate max_log_len 0; len = 0 }

unfoldable pub empty_entry : LogEntry
unfolding new_string
empty_entry = record { severity = info; message = new_string }

-- The bytes that `as_str` reads.
unfoldable pub as_str : LogString → List ℕ
as_str s = take s.len s.buffer

-- The flag is whether everything was written; otherwise the call is an error.
unfoldable pub write_str : LogString → List ℕ → LogString × Bool
write_str s bytes =
    let remaining = max_log_len - s.len in
    let copy_len = min (length bytes) remaining in
    (
      record {
        buffer = take s.len s.buffer ++ take copy_len bytes ++ drop (s.len + copy_len) s.buffer;
        len = s.len + copy_len;
      },
      not (ltb remaining (length bytes)),
    )

-- `write_fmt` writes the pieces of the formatted text in turn and stops at the first error.
unfoldable pub write_fmt : LogString → List (List ℕ) → LogString
write_fmt s [] = s
write_fmt s (piece ∷ pieces) =
    let (s', ok) = write_str s piece in let rest = write_fmt s' pieces in if ok then rest else s'

-- The entry that `Logger::log` queues.
unfoldable pub log_entry : Severity → List (List ℕ) → LogEntry
unfolding empty_entry
log_entry severity pieces = record {
  severity = severity;
  message = write_fmt empty_entry.message pieces;
}
