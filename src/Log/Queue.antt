-- ===== src/Log/Queue.antt =====
-- `LogQueue` of crates/veloxity_core/src/log.rs: a ring that overwrites its oldest entry.
use veloxity.Base.{
  ℕ, ◌+◌, ◌%◌, Bool, false, not, ◌&&◌, ◌==◌, List, Option, none, some, get_or, set, replicate,
  if◌then◌else◌,
}
use veloxity.Log.Text.{LogEntry, Severity, empty_entry, log_entry}

abbrev pub log_queue_size : ℕ
log_queue_size = 16

pub record LogQueue : Type 0 where
  pub storage : List LogEntry
  pub head : ℕ
  pub tail : ℕ
  pub full : Bool

unfoldable pub new : LogQueue
new = record { storage = replicate log_queue_size empty_entry; head = 0; tail = 0; full = false }

unfoldable pub push : LogQueue → LogEntry → LogQueue
push q entry =
    let head = (q.head + 1) % log_queue_size in
    let tail = if q.full then (q.tail + 1) % log_queue_size else q.tail in
    record { storage = set q.storage q.head entry; head = head; tail = tail; full = head == tail }

unfoldable pub pop : LogQueue → LogQueue × Option LogEntry
pop q = if not q.full && q.head == q.tail then (q, none) else (
  record q { tail = (q.tail + 1) % log_queue_size; full = false },
  some (get_or q.storage q.tail empty_entry),
)

-- `Logger::log`, inside its critical section.
unfoldable pub log : LogQueue → Severity → List (List ℕ) → LogQueue
log q severity pieces = push q (log_entry severity pieces)
