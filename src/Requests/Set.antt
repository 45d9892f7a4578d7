-- ===== src/Requests/Set.antt =====
-- `apply_param_requests` of crates/veloxity_core/src/params/service.rs.
use veloxity.Base.{
  ℕ, zero, suc, Bool, true, false, not, ◌&&◌, ◌||◌, List, Option, none, some, leb, ◌==◌,
  if◌then◌else◌,
}
use veloxity.Base.Int.{pos, negsuc}
use veloxity.Float.{Float}
use veloxity.Params.{
  Params, ParamId, ParamValue, int, float, uint, bool, get_by_id, param_primary_mixer,
  param_secondary_mixer, param_primary_mixer_output_0, param_primary_mixer_pwm_rate_0,
  param_primary_mixer_0_0, param_secondary_mixer_0_0,
}
use veloxity.Params.Definition.{ParamDefinition}
use veloxity.Params.Table.{
  params_count, param_definitions, nth, from_index, param_id_from_name_bytes,
}
use veloxity.Events.Deque.{Deque}
use veloxity.Events.Queue.{EventQueue, push_or_log}
use veloxity.Events.Response.{CommResponse, param_value}
use veloxity.Companion.Inputs.{drain_all}
use veloxity.Pipeline.Change.{ParamChanged, same_value, set_param_and_emit_change}
use veloxity.Telemetry.Streams.{telemetry_stream_for_param, max_telemetry_rate_hz}
use veloxity.Mixer.Canned.{Nalgebra}
use veloxity.Mixer.Reflected.{sync_reflected_mixer_params}
use veloxity.Requests.Service.{
  ParamIdentifier, ParamListState, ParamValueMsg, row_response, respond, is_some,
  service_param_read_requests, service_param_list_requests,
}

pub record ParamSetRequested (F : Type 0) : Type 0 where
  pub value : ParamValue F
  pub param_id_bytes : List ℕ

-- What a request can change.
pub record Setting (F C D : Type 0) : Type 0 where
  pub params : Params F
  pub changes : EventQueue C
  pub responses : EventQueue D

unfoldable pub same_param_type : {F : Type 0} → ParamValue F → ParamValue F → Bool
same_param_type (float a) (float b) = true
same_param_type (int a) (int b) = true
same_param_type (uint a) (uint b) = true
same_param_type (bool a) (bool b) = true
same_param_type _ _ = false

-- `Int(-1..=MAX_TELEMETRY_RATE_HZ)`
abbrev pub is_telemetry_rate : {F : Type 0} → ParamValue F → Bool
is_telemetry_rate (int (pos n)) = leb n max_telemetry_rate_hz
is_telemetry_rate (int (negsuc n)) = n == 0
is_telemetry_rate _ = false

unfoldable pub is_mixer_choice_param : ParamId → Bool
is_mixer_choice_param id = id == param_primary_mixer || id == param_secondary_mixer

-- Whether a value is one for the row.
unfoldable pub accepts : {F : Type 0} → ParamDefinition F → ParamValue F → Bool
unfolding same_param_type telemetry_stream_for_param
accepts d value =
    same_param_type d.default value
    && not (is_some (telemetry_stream_for_param d.id) && not (is_telemetry_rate value))

module _ {F W C D : Type 0} ⦃fl : Float F⦄ ⦃fw : Float W⦄ (to_f32 : W → F) (na : Nalgebra W)
    (cq : Deque (ParamChanged F) C) (dq : Deque (CommResponse (ParamValueMsg F)) D) where
  unfoldable pub emit_param_value_response : Params F → ParamId → EventQueue D → EventQueue D
  unfolding push_or_log row_response nth param_definitions
  emit_param_value_response params id responses =
      respond dq params responses (nth param_definitions id)

  abbrev emit_next :
      (EventQueue D → EventQueue D) → Params F → EventQueue D → Option ParamId → EventQueue D
  emit_next rest params responses none = responses
  emit_next rest params responses (some id) = rest (emit_param_value_response params id responses)

  -- The loop over `len` parameters from `first` on.
  unfoldable pub emit_param_range : Params F → ℕ → ℕ → EventQueue D → EventQueue D
  unfolding emit_param_value_response from_index
  emit_param_range params first zero responses = responses
  emit_param_range params first (suc len) responses =
      emit_next (emit_param_range params (suc first) len) params responses (from_index F first)

  unfoldable pub emit_reflected_mixer_param_responses :
      Params F → ParamId → EventQueue D → EventQueue D
  unfolding emit_param_range
  emit_reflected_mixer_param_responses params changed responses =
      if changed == param_primary_mixer
      then emit_param_range params param_primary_mixer_0_0 100 (
          emit_param_range params param_primary_mixer_pwm_rate_0 10
            (emit_param_range params param_primary_mixer_output_0 10 responses))
      else if changed == param_secondary_mixer
      then emit_param_range params param_secondary_mixer_0_0 100 responses
      else responses

  -- A request for the value that the parameter has.
  unfoldable pub set_same : Setting F C D → ParamId → Setting F C D
  unfolding is_mixer_choice_param sync_reflected_mixer_params emit_reflected_mixer_param_responses
      emit_param_value_response
  set_same s id =
      let params =
        if is_mixer_choice_param id
        then sync_reflected_mixer_params to_f32 na s.params id
        else s.params in
      let reflected =
        if is_mixer_choice_param id
        then emit_reflected_mixer_param_responses params id s.responses
        else s.responses in
      record s { params = params; responses = emit_param_value_response params id reflected }

  unfoldable pub set_new : Setting F C D → ParamId → ParamSetRequested F → Setting F C D
  unfolding set_param_and_emit_change sync_reflected_mixer_params
      emit_reflected_mixer_param_responses push_or_log
  set_new s id req =
      let (set, changes) = set_param_and_emit_change cq s.params s.changes id req.value in
      let params = sync_reflected_mixer_params to_f32 na set id in
      let reflected = emit_reflected_mixer_param_responses params id s.responses in
      record {
        params = params;
        changes = changes;
        responses =
            (push_or_log dq reflected (
              param_value (record {
                param_id = req.param_id_bytes;
                value = get_by_id params id;
                param_count = params_count;
                param_index = id;
              }))).0;
      }

  abbrev pub set_row :
      Setting F C D → ParamSetRequested F → Option (ParamDefinition F) → Setting F C D
  set_row s req none = s
  set_row s req (some d) =
      if not (accepts d req.value)
      then s
      else if same_value (get_by_id s.params d.id) req.value
      then set_same s d.id
      else set_new s d.id req

  abbrev pub set_named : Setting F C D → ParamSetRequested F → Option ParamId → Setting F C D
  set_named s req none = s
  set_named s req (some id) = set_row s req (nth param_definitions id)

  -- One turn of the loop.
  unfoldable pub set_request : Setting F C D → ParamSetRequested F → Setting F C D
  unfolding accepts same_value set_same set_new nth param_definitions param_id_from_name_bytes
  set_request s req = set_named s req (param_id_from_name_bytes F req.param_id_bytes)

  unfoldable pub apply_param_requests :
      {Q : Type 0}
      → Deque (ParamSetRequested F) Q
      → EventQueue Q
      → Setting F C D
      → EventQueue Q × Setting F C D
  unfolding drain_all set_request
  apply_param_requests requests = drain_all requests set_request

  -- The reads, a turn of the list, and the sets, each on what the one before it left.
  unfoldable pub service_param_events :
      {Q L S : Type 0}
      → Deque ParamIdentifier Q
      → Deque (Unit {0}) L
      → Deque (ParamSetRequested F) S
      → EventQueue Q
      → EventQueue L
      → EventQueue S
      → ParamListState
      → Setting F C D
      → EventQueue Q × EventQueue L × EventQueue S × ParamListState × Setting F C D
  unfolding service_param_read_requests service_param_list_requests apply_param_requests
  service_param_events rq lq sq reads lists sets list s =
      let (reads', answered) = service_param_read_requests dq s.params rq reads s.responses in
      let (lists', list', listed) =
        service_param_list_requests dq s.params lq lists list answered in
      let (sets', s') = apply_param_requests sq sets (record s { responses = listed }) in
      (reads', lists', sets', list', s')
