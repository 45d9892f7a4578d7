-- ===== src/Tests/Requests.antt =====
-- The theorems on requests for parameters at concrete inputs.
use veloxity.Base.{ℕ, ◌-◌, replicate, ◌≡◌, refl, true, Option, none, some, List, [], ◌∷◌}
use veloxity.Base.Int.{ℤ, pos}
use veloxity.Params.{Params, ParamValue, int, float, uint, bool, get_by_id}
use veloxity.Params.Definition.{ParamDefinition}
use veloxity.Params.Table.{params_count, param_definitions, nth}
use veloxity.Pipeline.Change.{ParamChanged}
use veloxity.Events.Queue.{EventQueue}
use veloxity.Events.Response.{CommResponse, cmd_ack, rc_calibration, rosflight_cmd_success}
use veloxity.Mixer.Canned.{Nalgebra}
use veloxity.Requests.Service.{ParamValueMsg, ParamListState}
use veloxity.Requests.Listed.{passes, answers, list_request_answered}
use veloxity.Requests.Set.{ParamSetRequested, Setting, same_param_type, apply_param_requests}
use veloxity.Requests.Stored.{WellTyped, is_typed, typed_row}
use veloxity.Requests.Typed.{set_requests_keep_types}
use veloxity.Tests.Data.{hundredths, zero_params}
use veloxity.Tests.Queues.{pair_deque, pair_deque_laws}

abbrev two_requests : EventQueue (List (Unit {0}))
two_requests = record { items = tt ∷ tt ∷ [] }

-- In the middle of an earlier list.
abbrev half_way : ParamListState
half_way = record { next_index = some 100 }

abbrev acknowledged : CommResponse (ParamValueMsg ℤ)
acknowledged = cmd_ack (record { command = rc_calibration; success = rosflight_cmd_success })

-- A response queue that is full, then empty ones.
abbrev one_full : List (EventQueue (List (CommResponse (ParamValueMsg ℤ))))
one_full =
    record { items = acknowledged ∷ acknowledged ∷ [] }
    ∷ replicate (params_count - 1) (record { items = [] })

list_request_answered_example :
    passes pair_deque pair_deque_laws pair_deque pair_deque_laws zero_params one_full two_requests
      half_way
    ≡ (
      answers pair_deque pair_deque_laws pair_deque pair_deque_laws zero_params 0 one_full
          param_definitions,
      record { next_index = none },
    )
list_request_answered_example =
    list_request_answered pair_deque pair_deque_laws pair_deque pair_deque_laws zero_params
      two_requests half_way (tt ∷ []) one_full refl refl

-- A crate that decomposes nothing.
abbrev no_nalgebra : Nalgebra ℤ
no_nalgebra = record { svd = λ m. (none, none, []); product = λ v_t sigma u. sigma }

abbrev row_default : Option (ParamDefinition ℤ) → ParamValue ℤ
row_default none = int (pos 0)
row_default (some d) = d.default

-- The default of each row.
abbrev defaults : Params ℤ
defaults = record { values = λ id. row_default (nth param_definitions id) }

same_type_self : (value : ParamValue ℤ) → same_param_type value value ≡ true
unfolding same_param_type
same_type_self (float v) = refl
same_type_self (int v) = refl
same_type_self (uint v) = refl
same_type_self (bool v) = refl

defaults-WellTyped : WellTyped defaults
unfolding WellTyped is_typed get_by_id
defaults-WellTyped id =
    elim (nth (param_definitions {F = ℤ}) id) as (λ o. typed_row o (row_default o) ≡ true) [
      | none ↦ refl
      | some d ↦ same_type_self d.default
    ]

-- NUM_MOTORS, which is an integer, is asked to be 6 and then 6.5.
abbrev set_requests : EventQueue (List (ParamSetRequested ℤ))
set_requests =
    let name : List ℕ =
      78 ∷ 85 ∷ 77 ∷ 95 ∷ 77 ∷ 79 ∷ 84 ∷ 79 ∷ 82 ∷ 83 ∷ 0 ∷ 0 ∷ 0 ∷ 0 ∷ 0 ∷ 0 ∷ [] in
    record {
      items =
          record { value = int (pos 6); param_id_bytes = name }
          ∷ record { value = float (pos 650); param_id_bytes = name }
          ∷ [];
    }

abbrev setting : Setting ℤ (List (ParamChanged ℤ)) (List (CommResponse (ParamValueMsg ℤ)))
setting = record {
  params = defaults;
  changes = record { items = [] };
  responses = record { items = [] };
}

set_requests_keep_types_example :
    let (requests', s') =
      apply_param_requests
        (λ (v : ℤ). v)
        no_nalgebra
        pair_deque
        pair_deque
        pair_deque
        set_requests
        setting in
    (requests'.items ≡ []) × WellTyped s'.params
set_requests_keep_types_example =
    set_requests_keep_types (λ (v : ℤ). v) no_nalgebra pair_deque pair_deque pair_deque
      pair_deque_laws set_requests setting defaults-WellTyped
