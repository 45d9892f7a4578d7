-- ===== src/Pipeline/Change.antt =====
-- A parameter that the code itself sets: `set_param_and_emit_change` of
-- crates/veloxity_core/src/params/service.rs, and the event of crates/veloxity_core/src/events.rs. The
-- event's name bytes are a function of its identifier and are left out.
use veloxity.Base.{Bool, true, false, ◌==◌, if◌then◌else◌}
use veloxity.Base.Int.{eqb_ℤ}
use veloxity.Float.{Float}
use veloxity.Params.{Params, ParamId, ParamValue, float, int, uint, bool, get_by_id, set_by_id}
use veloxity.Events.Deque.{Deque}
use veloxity.Events.Queue.{EventQueue, push_or_log}

pub record ParamChanged (F : Type 0) : Type 0 where
  pub id : ParamId
  pub old : ParamValue F
  pub new : ParamValue F

abbrev same_bool : Bool → Bool → Bool
same_bool true b = b
same_bool false true = false
same_bool false false = true

module _ {F : Type 0} ⦃fl : Float F⦄ where
  -- The derived equality of `ParamValue`.
  unfoldable pub same_value : ParamValue F → ParamValue F → Bool
  same_value (float a) (float b) = fl.eq a b
  same_value (int a) (int b) = eqb_ℤ a b
  same_value (uint a) (uint b) = a == b
  same_value (bool a) (bool b) = same_bool a b
  same_value _ _ = false

module _ {F D : Type 0} ⦃fl : Float F⦄ where
  unfoldable pub emit_param_change :
      Deque (ParamChanged F) D → EventQueue D → ParamId → ParamValue F → ParamValue F → EventQueue D
  emit_param_change dq changes id old new =
      (push_or_log dq changes (record { id = id; old = old; new = new })).0

  unfoldable pub set_param_and_emit_change :
      Deque (ParamChanged F) D
      → Params F
      → EventQueue D
      → ParamId
      → ParamValue F
      → Params F × EventQueue D
  unfolding same_value emit_param_change
  set_param_and_emit_change dq params changes id value =
      let old = get_by_id params id in
      let params' = set_by_id params id value in
      if same_value old value
      then (params, changes)
      else (params', emit_param_change dq changes id old (get_by_id params' id))
