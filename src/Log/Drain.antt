-- ===== src/Log/Drain.antt =====
-- The drain of the log queue into the responses: crates/veloxity_core/src/log/drain.rs.
use veloxity.Base.{
  ℕ, zero, suc, Bool, ◌++◌, Option, none, some, length, take, drop, replicate, min, if◌then◌else◌,
}
use veloxity.Events.Deque.{Deque}
use veloxity.Events.Queue.{EventQueue, push}
use veloxity.Events.Response.{CommResponse, statustext, StatustextMsg}
use veloxity.Log.Text.{LogEntry, as_str}
use veloxity.Log.Queue.{LogQueue}
use veloxity.Log.Queue

abbrev pub max_logs_per_drain : ℕ
max_logs_per_drain = 1

-- The message of an entry: its text, padded with zero bytes.
unfoldable pub to_statustext : LogEntry → StatustextMsg
to_statustext entry =
    let bytes = as_str entry.message in
    let len = min (length bytes) 50 in
    record { severity = entry.severity; text = take len bytes ++ drop len (replicate 50 0) }

module _ {P D : Type 0} (dr : Deque (CommResponse P) D) where
  -- One turn of the loop after the pop, with the rest of the loop.
  unfoldable pub emit_turn :
      (EventQueue D → LogQueue × EventQueue D × ℕ)
      → LogQueue
      → EventQueue D
      → Option LogEntry
      → LogQueue × EventQueue D × ℕ
  emit_turn rest log responses none = (log, responses, 0)
  emit_turn rest log responses (some entry) =
      let (responses', ok) = push dr responses (statustext (to_statustext entry)) in
      let (log', after, drained) = rest responses' in
      if ok then (log', after, suc drained) else (log, responses', 0)

  -- The loop with the number of turns that are left, and how many entries it drained.
  unfoldable pub drain_logs : ℕ → LogQueue → EventQueue D → LogQueue × EventQueue D × ℕ
  unfolding emit_turn
  drain_logs zero log responses = (log, responses, 0)
  drain_logs (suc turns) log responses =
      let (log', entry) = Queue.pop log in emit_turn (drain_logs turns log') log' responses entry

  unfoldable pub drain_logs_to_comm_responses :
      Bool → LogQueue → EventQueue D → LogQueue × EventQueue D × ℕ
  unfolding drain_logs
  drain_logs_to_comm_responses connected log responses =
      if connected then drain_logs max_logs_per_drain log responses else (log, responses, 0)
