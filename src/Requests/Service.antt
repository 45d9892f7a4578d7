-- ===== src/Requests/Service.antt =====
-- `service_param_read_requests` and `service_param_list_requests` of
-- crates/veloxity_core/src/params/service.rs. A list request has no content.
use veloxity.Base.{ℕ, ◌+◌, Bool, true, false, List, Option, none, some, ltb, if◌then◌else◌}
use veloxity.Base.Int.{ℤ, pos, negsuc}
use veloxity.Float.{Float}
use veloxity.Params.{Params, ParamId, ParamValue, get_by_id}
use veloxity.Params.Definition.{ParamDefinition, str_to_fixed_bytes}
use veloxity.Params.Table.{
  params_count, param_definitions, nth, from_index, param_id_from_name_bytes,
}
use veloxity.Events.Deque.{Deque}
use veloxity.Events.Queue.{EventQueue, push_or_log}
use veloxity.Events.Response.{CommResponse, param_value}
use veloxity.Companion.Inputs.{drain_all}

pub data ParamIdentifier : Type 0 where
  id : List ℕ → ParamIdentifier
  index : ℤ → ParamIdentifier

pub record ParamValueMsg (F : Type 0) : Type 0 where
  pub param_id : List ℕ
  pub value : ParamValue F
  pub param_count : ℕ
  pub param_index : ℕ

-- `None` is no list in progress.
pub record ParamListState : Type 0 where
  pub next_index : Option ℕ

abbrev pub is_some : {A : Type 0} → Option A → Bool
is_some none = false
is_some (some a) = true

unfoldable pub is_active : ParamListState → Bool
is_active state = is_some state.next_index

module _ (F : Type 0) ⦃fl : Float F⦄ where
  unfoldable pub param_id_from_identifier : ParamIdentifier → Option ParamId
  unfolding from_index param_id_from_name_bytes
  param_id_from_identifier (index (pos n)) = from_index F n
  param_id_from_identifier (index (negsuc n)) = none
  param_id_from_identifier (id bytes) = param_id_from_name_bytes F bytes

module _ {F : Type 0} ⦃fl : Float F⦄ where
  -- The response for a row of the table.
  unfoldable pub row_response : Params F → ParamDefinition F → CommResponse (ParamValueMsg F)
  unfolding str_to_fixed_bytes
  row_response params d = param_value (record {
    param_id = str_to_fixed_bytes d.name;
    value = get_by_id params d.id;
    param_count = params_count;
    param_index = d.id;
  })

  module _ {D : Type 0} (dq : Deque (CommResponse (ParamValueMsg F)) D) (params : Params F) where
    -- An identifier always has a row.
    abbrev pub respond : EventQueue D → Option (ParamDefinition F) → EventQueue D
    respond responses none = responses
    respond responses (some d) = (push_or_log dq responses (row_response params d)).0

    abbrev pub respond_to : EventQueue D → Option ParamId → EventQueue D
    respond_to responses none = responses
    respond_to responses (some i) = respond responses (nth param_definitions i)

    unfoldable pub service_param_read_requests :
        {Q : Type 0}
        → Deque ParamIdentifier Q
        → EventQueue Q
        → EventQueue D
        → EventQueue Q × EventQueue D
    unfolding drain_all push_or_log row_response nth param_definitions param_id_from_identifier
    service_param_read_requests requests =
        drain_all requests
          (λ responses identifier. respond_to responses (param_id_from_identifier F identifier))

    abbrev pub next_after : ℕ → ParamListState
    next_after i = record { next_index = if ltb (i + 1) params_count then some (i + 1) else none }

    abbrev pub list_row :
        EventQueue D → ℕ → Option (ParamDefinition F) → ParamListState × EventQueue D
    list_row responses i none = (record { next_index = none }, responses)
    list_row responses i (some d) =
        (next_after i, (push_or_log dq responses (row_response params d)).0)

    abbrev pub list_next : EventQueue D → Option ℕ → ParamListState × EventQueue D
    list_next responses none = (record { next_index = none }, responses)
    list_next responses (some i) = list_row responses i (nth param_definitions i)

    unfoldable pub service_param_list_requests :
        {Q : Type 0}
        → Deque (Unit {0}) Q
        → EventQueue Q
        → ParamListState
        → EventQueue D
        → EventQueue Q × ParamListState × EventQueue D
    unfolding drain_all push_or_log row_response nth param_definitions
    service_param_list_requests requests queue state responses =
        let (queue', state') =
          drain_all requests (λ s request. record { next_index = some 0 }) queue state in
        let (next, responses') = list_next responses state'.next_index in (queue', next, responses')
