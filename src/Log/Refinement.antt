-- ===== src/Log/Refinement.antt =====
-- Any use of the `LogQueue` of crates/veloxity_core/src/log.rs, against a list with a bound.
use veloxity.Base.{
  ℕ, ◌≡◌, refl, sym, ap, ◌∙◌, inl, inr, List, [], ◌∷◌, ◌++◌, Option, none, some, length, drop, leb,
  if◌then◌else◌, arith,
}
use veloxity.Log.Text.{LogEntry, Severity, log_entry}
use veloxity.Log.Queue.{log_queue_size, LogQueue, new, push, pop, log}
use veloxity.Log.Ring.{
  IsRing, entries, count, length-read_from, push-IsRing, entries-push, entries-pop,
}

-- A call of `Logger::log` with the pieces of its text, or of `Logger::pop`.
pub data Call : Type 0 where
  log_call : Severity → List (List ℕ) → Call
  pop_call : Call

-- What the calls of `pop` return, in order.
unfoldable pub outputs : LogQueue → List Call → List (Option LogEntry)
outputs q [] = []
outputs q (log_call severity pieces ∷ calls) = outputs (log q severity pieces) calls
outputs q (pop_call ∷ calls) = (pop q).1 ∷ outputs (pop q).0 calls

-- A list, the oldest entry first, that drops its oldest entry for a seventeenth.
unfoldable pub bounded_push : List LogEntry → LogEntry → List LogEntry
bounded_push es e = (if leb log_queue_size (length es) then drop 1 es else es) ++ e ∷ []

unfoldable pub expected : List LogEntry → List Call → List (Option LogEntry)
expected es [] = []
expected es (log_call severity pieces ∷ calls) =
    expected (bounded_push es (log_entry severity pieces)) calls
expected [] (pop_call ∷ calls) = none ∷ expected [] calls
expected (e ∷ es) (pop_call ∷ calls) = some e ∷ expected es calls

full-length : (q : LogQueue) → IsRing q → leb log_queue_size (length (entries q)) ≡ q.full
unfolding entries count
full-length q r = ground (arith, length-read_from q.storage q.tail (count q))

push-bounded_push :
    (q : LogQueue) (e : LogEntry) → IsRing q → entries (push q e) ≡ bounded_push (entries q) e
unfolding bounded_push
push-bounded_push q e r =
    entries-push q e r
    ∙ ap (λ b. (if b then drop 1 (entries q) else entries q) ++ e ∷ []) (sym (full-length q r))

outputs-expected :
    (q : LogQueue) (calls : List Call) → IsRing q → outputs q calls ≡ expected (entries q) calls
unfolding outputs expected log
outputs-expected q [] r = refl
outputs-expected q (log_call severity pieces ∷ calls) r =
    outputs-expected (push q (log_entry severity pieces)) calls (push-IsRing q _ r)
    ∙ ap (λ es. expected es calls) (push-bounded_push q (log_entry severity pieces) r)
outputs-expected q (pop_call ∷ calls) r = elim (entries-pop q r) [
  | inl (nothing, same) ↦
      ap (λ p. p.1 ∷ outputs p.0 calls) same
      ∙ ap (λ os. none ∷ os) (outputs-expected q calls r ∙ ap (λ es. expected es calls) nothing)
      ∙ ap (λ es. expected es (pop_call ∷ calls)) (sym nothing)
  | inr (e, oldest, taken, ring) ↦
      ap (λ o. o ∷ outputs (pop q).0 calls) taken
      ∙ ap (λ os. some e ∷ os) (outputs-expected (pop q).0 calls ring)
      ∙ ap (λ es. expected es (pop_call ∷ calls)) (sym oldest)
]

-- Whatever calls are made on a new queue, the pops return what a first-in first-out list of at most
-- sixteen entries returns that drops its oldest entry to make room for a new one.
pub log_queue_refines : (calls : List Call) → outputs new calls ≡ expected [] calls
unfolding new entries count
log_queue_refines calls =
    outputs-expected new calls
      (record { sized = refl; head_in = omega arith; tail_in = omega arith; met = inl refl })
