-- ===== src/Log/Forwarding.antt =====
-- What one call of the drain of crates/veloxity_core/src/log/drain.rs does to the oldest log entry.
use veloxity.Base.{
  ◌≡◌, refl, ap, ◌∙◌, inl, inr, Bool, true, Bool-cases, List, [], ◌∷◌, ◌++◌, some, length, ltb,
  if◌then◌else◌, arith,
}
use veloxity.Events.Deque.{Deque, IsDeque}
use veloxity.Events.Queue.{EventQueue, push}
use veloxity.Events.Response.{CommResponse, statustext}
use veloxity.Log.Text.{LogEntry}
use veloxity.Log.Queue.{LogQueue, pop}
use veloxity.Log.Ring.{IsRing, entries, entries-pop}
use veloxity.Log.Drain.{to_statustext, emit_turn, drain_logs, drain_logs_to_comm_responses}

module _ {P D : Type 0} (dr : Deque (CommResponse P) D) (laws : IsDeque dr) where
  -- Whether the response queue has room.
  abbrev pub has_room : EventQueue D → Bool
  has_room responses = ltb (length (laws.items responses.items)) laws.capacity

  emit_turn-some :
      (log : LogQueue) (responses : EventQueue D) (e : LogEntry)
      → let (log', responses', drained) =
          emit_turn dr (λ after. (log, after, 0)) log responses (some e) in
        (log' ≡ log)
        × (laws.items responses'.items ≡ (
            if has_room responses
            then laws.items responses.items ++ statustext (to_statustext e) ∷ []
            else laws.items responses.items))
        × (drained ≡ (if has_room responses then 1 else 0))
  unfolding emit_turn push
  emit_turn-some log responses e = elim (Bool-cases (has_room responses)) [
    | inl room ↦
        let (queued, ok) =
          laws.push_room responses.items (statustext (to_statustext e)) (ground (arith, room)) in
        rw (room, ok) (refl, queued, refl)
    | inr full ↦
        let refused =
          laws.push_full responses.items (statustext (to_statustext e)) (ground (arith, full)) in
        rw (full, refused) (refl, refl, refl)
  ]

  -- While the companion is connected, one call takes the oldest entry out of the log queue. Where the
  -- response queue has room, its text becomes the last response and the call reports one entry;
  -- otherwise the responses stay, the call reports none, and the entry is lost. The response queue's
  -- own behaviour is assumed.
  pub oldest_forwarded :
      (log : LogQueue) (responses : EventQueue D) (e : LogEntry) (es : List LogEntry)
      → IsRing log
      → entries log ≡ e ∷ es
      → let (log', responses', drained) = drain_logs_to_comm_responses dr true log responses in
        (entries log' ≡ es)
        × (laws.items responses'.items ≡ (
            if has_room responses
            then laws.items responses.items ++ statustext (to_statustext e) ∷ []
            else laws.items responses.items))
        × (drained ≡ (if has_room responses then 1 else 0))
  unfolding drain_logs_to_comm_responses drain_logs
  oldest_forwarded log responses e es ring held = elim (entries-pop log ring) [
    | inl (nothing, same) ↦ absurd (ground (arith, nothing, held))
    | inr (e', oldest, taken, ring') ↦
        let same : some e' ≡ some e = ground (arith, oldest, held) in
        let left : entries (pop log).0 ≡ es = ground (arith, oldest, held) in
        let turn =
          ap (emit_turn dr (λ after. ((pop log).0, after, 0)) (pop log).0 responses)
            (taken ∙ same) in
        let (rest, queued, counted) = emit_turn-some (pop log).0 responses e in
        (
          ap (λ r. entries r.0) turn ∙ ap entries rest ∙ left,
          ap (λ r. laws.items r.1.items) turn ∙ queued,
          ap (λ r. r.2) turn ∙ counted,
        )
  ]
