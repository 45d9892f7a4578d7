-- ===== src/Requests/Listed.antt =====
-- A list request of crates/veloxity_core/src/params/service.rs is answered with the whole table, a
-- row in each pass.
use veloxity.Base.{
  ℕ, suc, ◌+◌, ◌<◌, ◌≡◌, refl, ap, ◌∙◌, true, false, inl, inr, Bool-cases, List, [], ◌∷◌, ◌++◌,
  none, some, length, ltb, if◌then◌else◌, arith,
}
use veloxity.Float.{Float}
use veloxity.Params.{Params, get_by_id}
use veloxity.Params.Definition.{Entry, entry, ParamDefinition, define, str_to_fixed_bytes}
use veloxity.Params.Table.{params_count, param_definitions, nth}
use veloxity.Params.First.{first_entries}
use veloxity.Params.Second.{second_entries}
use veloxity.Params.Third.{third_entries}
use veloxity.Events.Deque.{Deque, IsDeque}
use veloxity.Events.Queue.{EventQueue, push, push_or_log}
use veloxity.Events.Response.{CommResponse, param_value}
use veloxity.Companion.Drained.{fold, drain_all-fold}
use veloxity.Companion.Inputs.{drain_all}
use veloxity.Requests.Service.{
  ParamValueMsg, ParamListState, row_response, list_row, list_next, next_after,
  service_param_list_requests,
}

-- The rows have the identifiers from `i` on.
abbrev AllNumbered : {F : Type 0} → ℕ → List (ParamDefinition F) → Type 0
AllNumbered i [] = Unit {0}
AllNumbered i (d ∷ ds) = (d.id ≡ i) × AllNumbered (suc i) ds

define-AllNumbered : {F : Type 0} (i : ℕ) (rows : List (Entry F)) → AllNumbered i (define i rows)
unfolding define
define-AllNumbered i [] = tt
define-AllNumbered i (entry name default ∷ rows) = (refl, define-AllNumbered (suc i) rows)

module _ {F D Q : Type 0} ⦃fl : Float F⦄ (rq : Deque (Unit {0}) Q) (request_laws : IsDeque rq)
    (dq : Deque (CommResponse (ParamValueMsg F)) D) (laws : IsDeque dq) (params : Params F) where
  abbrev Responses : Type 0
  Responses = List (CommResponse (ParamValueMsg F))

  -- The response queue after each pass, for the response queue that each pass starts with, and the
  -- state after the last one.
  unfoldable pub passes :
      List (EventQueue D) → EventQueue Q → ParamListState → List Responses × ParamListState
  unfolding service_param_list_requests
  passes [] requests state = ([], state)
  passes (q ∷ qs) requests state =
      let (requests', state', q') = service_param_list_requests dq params rq requests state q in
      let (later, last) = passes qs requests' state' in (laws.items q'.items ∷ later, last)

  -- A response at the back of the queue, or the queue as it was when it is full.
  abbrev pub queued : EventQueue D → CommResponse (ParamValueMsg F) → Responses
  queued q response =
      let items = laws.items q.items in
      if ltb (length items) laws.capacity then items ++ response ∷ [] else items

  -- Each queue with the response for the parameter of its pass, the first being number `i`.
  unfoldable pub answers : ℕ → List (EventQueue D) → List (ParamDefinition F) → List Responses
  answers i [] ds = []
  answers i (q ∷ qs) [] = []
  answers i (q ∷ qs) (d ∷ ds) =
      queued q (
        param_value (record {
          param_id = str_to_fixed_bytes d.name;
          value = get_by_id params i;
          param_count = params_count;
          param_index = i;
        }))
      ∷ answers (suc i) qs ds

  abbrev restarted : ParamListState → List (Unit {0}) → ParamListState
  restarted s [] = s
  restarted s (x ∷ xs) = record { next_index = some 0 }

  fold-restarted :
      (s : ParamListState) (xs : List (Unit {0}))
      → fold (λ s request. let r : ParamListState = record { next_index = some 0 } in r) s xs
        ≡ restarted s xs
  unfolding fold
  fold-restarted s [] = refl
  fold-restarted s (x ∷ []) = refl
  fold-restarted s (x ∷ y ∷ xs) = fold-restarted (record { next_index = some 0 }) (y ∷ xs)

  push_or_log-queued :
      (q : EventQueue D) (response : CommResponse (ParamValueMsg F))
      → laws.items (push_or_log dq q response).0.items ≡ queued q response
  unfolding push_or_log push
  push_or_log-queued q response =
      elim (Bool-cases (ltb (length (laws.items q.items)) laws.capacity)) [
        | inl room ↦
            rw room
              (let (back, ok) = laws.push_room q.items response (ground (arith, room)) in back)
        | inr full ↦ rw (full, laws.push_full q.items response (ground (arith, full))) refl
      ]

  pass :
      (requests : EventQueue Q) (state : ParamListState) (q : EventQueue D) (i : ℕ)
      (d : ParamDefinition F)
      → restarted state (request_laws.items requests.items) ≡ record { next_index = some i }
      → nth param_definitions i ≡ some d
      → let (requests', state', q') = service_param_list_requests dq params rq requests state q in
        (request_laws.items requests'.items ≡ [])
        × (state' ≡ next_after dq params i)
        × (laws.items q'.items ≡ queued q (row_response params d))
  unfolding service_param_list_requests
  pass requests state q i d e row =
      let step : ParamListState → Unit {0} → ParamListState =
        λ s request. record { next_index = some 0 } in
      let (emptied, folded) = drain_all-fold rq request_laws step requests state in
      let now : (drain_all rq step requests state).1 ≡ record { next_index = some i } =
        folded ∙ fold-restarted state (request_laws.items requests.items) ∙ e in
      let turn : list_next dq params q (drain_all rq step requests state).1.next_index
          ≡ list_row dq params q i (some d) =
        ap (λ (s : ParamListState). list_next dq params q s.next_index) now
        ∙ ap (list_row dq params q i) row in
      (
        emptied,
        ap (λ r. r.0) turn,
        ap (λ r. laws.items r.1.items) turn ∙ push_or_log-queued q (row_response params d),
      )

  abbrev over : ParamListState
  over = record { next_index = none }

  after-end : (i : ℕ) → i + 1 ≡ params_count → next_after dq params i ≡ over
  after-end i e = let past : ltb (i + 1) params_count ≡ false = ground (arith, e) in rw past refl

  after-row :
      (i : ℕ) → suc i < params_count → next_after dq params i ≡ record { next_index = some (suc i) }
  after-row i h =
      let inside : ltb (i + 1) params_count ≡ true = ground (arith, h) in
      let same : i + 1 ≡ suc i = omega arith in
      rw inside (ap (λ n. let s : ParamListState = record { next_index = some n } in s) same)

  row_response-numbered :
      (d : ParamDefinition F) (i : ℕ)
      → d.id ≡ i
      → row_response params d
        ≡ param_value (record {
          param_id = str_to_fixed_bytes d.name;
          value = get_by_id params i;
          param_count = params_count;
          param_index = i;
        })
  unfolding row_response
  row_response-numbered d i e = rw e refl

  rest-passes :
      (d : ParamDefinition F) (ds : List (ParamDefinition F)) (q : EventQueue D)
      (qs : List (EventQueue D)) (i : ℕ) (requests : EventQueue Q) (state : ParamListState)
      → length qs ≡ length ds
      → AllNumbered i (d ∷ ds)
      → restarted state (request_laws.items requests.items) ≡ record { next_index = some i }
      → i + suc (length ds) ≡ params_count
      → ((k : ℕ) → nth param_definitions (i + k) ≡ nth (d ∷ ds) k)
      → passes (q ∷ qs) requests state ≡ (answers i (q ∷ qs) (d ∷ ds), over)
  unfolding passes nth answers
  rest-passes d [] q [] i requests state sized numbered e count rows =
      let same : i ≡ i + 0 = omega arith in
      let row : nth param_definitions i ≡ some d = ap (nth param_definitions) same ∙ rows 0 in
      let (emptied, next, sent) = pass requests state q i d e row in
      rw (sent, row_response-numbered d i numbered.0, next ∙ after-end i count) refl
  rest-passes d [] q (q' ∷ qs) i requests state sized numbered e count rows =
      absurd (omega (arith, sized))
  rest-passes d (d' ∷ ds) q [] i requests state sized numbered e count rows =
      absurd (omega (arith, sized))
  rest-passes d (d' ∷ ds) q (q' ∷ qs) i requests state sized numbered e count rows =
      let same : i ≡ i + 0 = omega arith in
      let row : nth param_definitions i ≡ some d = ap (nth param_definitions) same ∙ rows 0 in
      let (emptied, next, sent) = pass requests state q i d e row in
      let (requests', state', responses) =
        service_param_list_requests dq params rq requests state q in
      let later =
        rest-passes d' ds q' qs (suc i) requests' state' (omega (arith, sized)) numbered.1
          (ap (restarted state') emptied ∙ next ∙ after-row i (omega (arith, count)))
          (omega (arith, count))
          (λ k.
            let shifted : suc i + k ≡ i + suc k = omega arith in
            ap (nth param_definitions) shifted ∙ rows (suc k)) in
      ap (λ (r : List Responses × ParamListState). (laws.items responses.items ∷ r.0, r.1)) later
      ∙ ap (λ xs. (xs ∷ answers (suc i) (q' ∷ qs) (d' ∷ ds), over))
          (sent ∙ ap (queued q) (row_response-numbered d i numbered.0))

  table-passes :
      (ds : List (ParamDefinition F)) (qs : List (EventQueue D)) (requests : EventQueue Q)
      (state : ParamListState)
      → param_definitions ≡ ds
      → length qs ≡ params_count
      → length ds ≡ params_count
      → AllNumbered 0 ds
      → restarted state (request_laws.items requests.items) ≡ record { next_index = some 0 }
      → passes qs requests state ≡ (answers 0 qs ds, over)
  table-passes [] qs requests state same sized count numbered e = absurd (omega (arith, count))
  table-passes (d ∷ ds) [] requests state same sized count numbered e =
      absurd (omega (arith, sized))
  table-passes (d ∷ ds) (q ∷ qs) requests state same sized count numbered e =
      rest-passes d ds q qs 0 requests state (omega (arith, sized, count)) numbered e
        (omega (arith, count))
        (λ k.
          let from_start : 0 + k ≡ k = omega arith in
          ap (nth param_definitions) from_start ∙ ap (λ rows. nth rows k) same)

  rows_in_table : length (param_definitions {F = F}) ≡ params_count
  unfolding param_definitions
  rows_in_table = refl

  table-AllNumbered : AllNumbered 0 (param_definitions {F = F})
  unfolding param_definitions
  table-AllNumbered =
      define-AllNumbered {F = F} 0 (first_entries ++ second_entries ++ third_entries)

  -- After a list request, whatever list was in progress, as many passes as the table has rows, with no
  -- further request and no change of a parameter between them, answer with each parameter in the order
  -- of the table, its own name, value and index. Each pass adds its response at the back of the response
  -- queue that it starts with; where that queue is full the response is lost and the list goes on. After
  -- the last pass no list is in progress.
  pub list_request_answered :
      (requests : EventQueue Q) (state : ParamListState) (more : List (Unit {0}))
      (qs : List (EventQueue D))
      → request_laws.items requests.items ≡ tt ∷ more
      → length qs ≡ params_count
      → passes qs requests state ≡ (answers 0 qs param_definitions, record { next_index = none })
  list_request_answered requests state more qs asked sized =
      table-passes param_definitions qs requests state refl sized rows_in_table table-AllNumbered
        (ap (restarted state) asked)
