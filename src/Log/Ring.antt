-- ===== src/Log/Ring.antt =====
-- `LogQueue` of crates/veloxity_core/src/log.rs as a queue of at most sixteen entries.
use veloxity.Base.{
  ℕ, zero, suc, ◌+◌, ◌-◌, ◌%◌, ◌≤◌, ◌<◌, ◌≡◌, ◌⊎◌, inl, inr, refl, ap, ◌∙◌, true, false, List, [],
  ◌∷◌, ◌++◌, none, some, length, get_or, set, drop, length-set, get_or-set_self, get_or-set_ne,
  arith, if◌then◌else◌, Bool-cases, ◌==◌, not, ◌&&◌, if_elim,
}
use veloxity.Log.Text.{LogEntry, empty_entry}
use veloxity.Log.Queue.{log_queue_size, LogQueue, push, pop}

pub record IsRing (q : LogQueue) : Type 0 where
  pub sized : length q.storage ≡ log_queue_size
  pub head_in : q.head < log_queue_size
  pub tail_in : q.tail < log_queue_size
  pub met : (q.full ≡ false) ⊎ (q.head ≡ q.tail)

unfoldable pub count : LogQueue → ℕ
count q = if q.full then log_queue_size else (q.head + log_queue_size - q.tail) % log_queue_size

unfoldable pub read_from : List LogEntry → ℕ → ℕ → List LogEntry
read_from s t zero = []
read_from s t (suc n) = get_or s t empty_entry ∷ read_from s ((t + 1) % log_queue_size) n

-- The entries, the oldest first.
unfoldable pub entries : LogQueue → List LogEntry
unfolding count read_from
entries q = read_from q.storage q.tail (count q)

pub length-read_from : (s : List LogEntry) (t n : ℕ) → length (read_from s t n) ≡ n
unfolding read_from
length-read_from s t zero = refl
length-read_from s t (suc n) = ap suc (length-read_from s ((t + 1) % log_queue_size) n)

read_from-append :
    (s : List LogEntry) (t n : ℕ)
    → t < log_queue_size
    → read_from s t (suc n)
      ≡ read_from s t n ++ get_or s ((t + n) % log_queue_size) empty_entry ∷ []
unfolding read_from
read_from-append s t zero h = ap (λ i. get_or s i empty_entry ∷ []) (omega arith)
read_from-append s t (suc n) h =
    ap (λ es. get_or s t empty_entry ∷ es)
      (read_from-append s ((t + 1) % log_queue_size) n (omega arith)
        ∙ ap (λ i. read_from s ((t + 1) % log_queue_size) n ++ get_or s i empty_entry ∷ [])
            (omega arith))

read_from-set :
    (s : List LogEntry) (t n i : ℕ) (e : LogEntry)
    → t < log_queue_size
    → i < log_queue_size
    → n ≤ (i + log_queue_size - t) % log_queue_size
    → read_from (set s i e) t n ≡ read_from s t n
unfolding read_from
read_from-set s t zero i e h g l = refl
read_from-set s t (suc n) i e h g l = cc (
  get_or-set_ne s i t e empty_entry (ground arith),
  read_from-set s ((t + 1) % log_queue_size) n i e (omega arith) g (omega arith),
)

pub push-IsRing : (q : LogQueue) (e : LogEntry) → IsRing q → IsRing (push q e)
unfolding push
push-IsRing q e r = record {
  sized = length-set q.storage q.head e ∙ r.sized;
  head_in = omega arith;
  tail_in = ground (arith, r.tail_in);
  met = ground arith;
}

-- What is read from a slot on, after a write to the slot that follows the ones read.
read_from-written :
    (s : List LogEntry) (t n i : ℕ) (e : LogEntry)
    → length s ≡ log_queue_size
    → t < log_queue_size
    → n ≤ 15
    → (t + n) % log_queue_size ≡ i
    → read_from (set s i e) t (suc n) ≡ read_from s t n ++ e ∷ []
read_from-written s t n i e l h g p =
    read_from-append (set s i e) t n h
    ∙ ap (λ es. es ++ get_or (set s i e) ((t + n) % log_queue_size) empty_entry ∷ [])
        (read_from-set s t n i e h (omega (arith, p)) (omega (arith, p)))
    ∙ ap (λ j. read_from s t n ++ get_or (set s i e) j empty_entry ∷ []) p
    ∙ ap (λ x. read_from s t n ++ x ∷ []) (get_or-set_self s i e empty_entry (omega (arith, l, p)))

-- An entry that is pushed comes last, and in a full queue the oldest entry makes room for it.
pub entries-push :
    (q : LogQueue) (e : LogEntry)
    → IsRing q
    → entries (push q e) ≡ (if q.full then drop 1 (entries q) else entries q) ++ e ∷ []
unfolding entries push count read_from
entries-push q e r = elim (Bool-cases q.full) [
  | inl full ↦
      let next = (q.tail + 1) % log_queue_size in
      let together : q.head ≡ q.tail = ground (arith, full, r.met) in
      let still : ((q.head + 1) % log_queue_size == next) ≡ true = ground (arith, together) in
      rw (full, still)
        (read_from-written q.storage next 15 q.head e r.sized (omega arith) (omega arith)
          (omega (arith, together, r.tail_in)))
  | inr roomy ↦
      let n = (q.head + log_queue_size - q.tail) % log_queue_size in
      let more : (if (q.head + 1) % log_queue_size == q.tail
            then log_queue_size
            else ((q.head + 1) % log_queue_size + log_queue_size - q.tail) % log_queue_size)
          ≡ suc n =
        ground (arith, r.head_in, r.tail_in) in
      rw (roomy, more)
        (read_from-written q.storage q.tail n q.head e r.sized r.tail_in (omega arith)
          (omega (arith, r.head_in, r.tail_in)))
]

-- A pop takes the oldest entry, and from an empty queue nothing.
pub entries-pop :
    (q : LogQueue)
    → IsRing q
    → ((entries q ≡ []) × (pop q ≡ (q, none)))
      ⊎ ((e : LogEntry) × (entries q ≡ e ∷ entries (pop q).0)
          × ((pop q).1 ≡ some e)
          × IsRing (pop q).0)
unfolding entries pop count read_from
entries-pop q r =
    if_elim
      (λ res.
        ((entries q ≡ []) × (res ≡ (q, none)))
        ⊎ ((e : LogEntry) × (entries q ≡ e ∷ entries res.0) × (res.1 ≡ some e) × IsRing res.0))
      (not q.full && q.head == q.tail)
      (λ empty.
        let nothing : count q ≡ 0 = ground (arith, empty, r.tail_in) in
        inl (ap (read_from q.storage q.tail) nothing, refl))
      (λ some_left.
        let next = (q.tail + 1) % log_queue_size in
        let one_less : count q ≡ suc ((q.head + log_queue_size - next) % log_queue_size) =
          ground (arith, some_left, r.met, r.head_in, r.tail_in) in
        inr (
          get_or q.storage q.tail empty_entry,
          ap (read_from q.storage q.tail) one_less,
          refl,
          record { sized = r.sized; head_in = r.head_in; tail_in = omega arith; met = inl refl },
        ))

-- A queue never holds more than sixteen entries, and a new one holds none.
pub entries_bound : (q : LogQueue) → IsRing q → length (entries q) ≤ log_queue_size
unfolding entries count
entries_bound q r = ground (arith, length-read_from q.storage q.tail (count q))
