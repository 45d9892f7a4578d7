-- ===== src/Requests/Typed.antt =====
-- The set requests of crates/veloxity_core/src/params/service.rs keep the types of the parameters.
use veloxity.Base.{
  ◌≡◌, refl, sym, ap, ◌∙◌, subst, Bool, true, false, not, ◌&&◌, List, [], ◌∷◌, Option, none, some,
  if_elim, arith,
}
use veloxity.Float.{Float}
use veloxity.Params.{Params, ParamId, ParamValue, get_by_id}
use veloxity.Params.Definition.{ParamDefinition}
use veloxity.Params.Table.{param_definitions, nth, param_id_from_name_bytes}
use veloxity.Events.Deque.{Deque, IsDeque}
use veloxity.Events.Queue.{EventQueue}
use veloxity.Events.Response.{CommResponse}
use veloxity.Companion.Drained.{fold, drain_all-fold}
use veloxity.Pipeline.Change.{ParamChanged, same_value, set_param_and_emit_change}
use veloxity.Mixer.Canned.{Nalgebra}
use veloxity.Requests.Service.{ParamValueMsg}
use veloxity.Requests.Set.{
  ParamSetRequested, Setting, same_param_type, accepts, is_mixer_choice_param, set_same, set_new,
  set_row, set_named, set_request, apply_param_requests,
}
use veloxity.Requests.Stored.{is_typed, WellTyped, typed_row, set_by_id-WellTyped, id_of_row}
use veloxity.Requests.Mixers.{sync-WellTyped}

left_of_accepted : (a b : Bool) → not (a && b) ≡ false → a ≡ true
left_of_accepted a b h = ground arith

accepted_is_typed :
    {F : Type 0} ⦃fl : Float F⦄ (d : ParamDefinition F) (id : ParamId) (value : ParamValue F)
    → nth param_definitions id ≡ some d
    → not (accepts d value) ≡ false
    → is_typed d.id value ≡ true
unfolding accepts is_typed
accepted_is_typed d id value e accepted =
    subst (λ i. typed_row (nth param_definitions i) value ≡ true) (sym (id_of_row id d e))
      (ap (λ o. typed_row o value) e
        ∙ left_of_accepted (same_param_type d.default value) _ accepted)

module _ {F W C D : Type 0} ⦃fl : Float F⦄ ⦃fw : Float W⦄ (to_f32 : W → F) (na : Nalgebra W)
    (cq : Deque (ParamChanged F) C) (dq : Deque (CommResponse (ParamValueMsg F)) D) where
  set_same-WellTyped :
      (s : Setting F C D) (id : ParamId)
      → WellTyped s.params
      → WellTyped (set_same to_f32 na cq dq s id).params
  unfolding set_same
  set_same-WellTyped s id typed =
      if_elim WellTyped (is_mixer_choice_param id)
        (λ choice. sync-WellTyped to_f32 na s.params id typed) (λ other. typed)

  set_new-WellTyped :
      (s : Setting F C D) (id : ParamId) (req : ParamSetRequested F)
      → WellTyped s.params
      → is_typed id req.value ≡ true
      → WellTyped (set_new to_f32 na cq dq s id req).params
  unfolding set_new set_param_and_emit_change
  set_new-WellTyped s id req typed fits = sync-WellTyped to_f32 na _ id (
      if_elim (λ (r : Params F × EventQueue C). WellTyped r.0)
        (same_value (get_by_id s.params id) req.value) (λ same. typed)
        (λ differ. set_by_id-WellTyped s.params id req.value typed fits))

  set_row-WellTyped :
      (s : Setting F C D) (req : ParamSetRequested F) (id : ParamId)
      (o : Option (ParamDefinition F))
      → nth param_definitions id ≡ o
      → WellTyped s.params
      → WellTyped (set_row to_f32 na cq dq s req o).params
  set_row-WellTyped s req id none e typed = typed
  set_row-WellTyped s req id (some d) e typed =
      let P : Setting F C D → Type 0 = λ s'. WellTyped s'.params in
      if_elim P (not (accepts d req.value)) (λ refused. typed)
        (λ accepted.
          if_elim P (same_value (get_by_id s.params d.id) req.value)
            (λ same. set_same-WellTyped s d.id typed)
            (λ differ.
              set_new-WellTyped s d.id req typed (accepted_is_typed d id req.value e accepted)))

  set_request-WellTyped :
      (s : Setting F C D) (req : ParamSetRequested F)
      → WellTyped s.params
      → WellTyped (set_request to_f32 na cq dq s req).params
  unfolding set_request
  set_request-WellTyped s req typed =
      elim (param_id_from_name_bytes F req.param_id_bytes)
        as (λ o. WellTyped (set_named to_f32 na cq dq s req o).params) [
          | none ↦ typed
          | some id ↦ set_row-WellTyped s req id (nth param_definitions id) refl typed
        ]

  fold-WellTyped :
      (s : Setting F C D) (reqs : List (ParamSetRequested F))
      → WellTyped s.params
      → WellTyped (fold (set_request to_f32 na cq dq) s reqs).params
  unfolding fold
  fold-WellTyped s [] typed = typed
  fold-WellTyped s (req ∷ reqs) typed =
      fold-WellTyped (set_request to_f32 na cq dq s req) reqs (set_request-WellTyped s req typed)

  -- Any requests to set parameters, with whatever names and values, are all taken and leave every
  -- parameter with a value of its default's type, where every one had such a value before.
  pub set_requests_keep_types :
      {Q : Type 0} (rq : Deque (ParamSetRequested F) Q) (laws : IsDeque rq)
      (requests : EventQueue Q) (s : Setting F C D)
      → WellTyped s.params
      → let (requests', s') = apply_param_requests to_f32 na cq dq rq requests s in
        (laws.items requests'.items ≡ []) × WellTyped s'.params
  unfolding apply_param_requests
  set_requests_keep_types rq laws requests s typed =
      let (emptied, folded) = drain_all-fold rq laws (set_request to_f32 na cq dq) requests s in
      (
        emptied,
        subst (λ (s' : Setting F C D). WellTyped s'.params) (sym folded)
            (fold-WellTyped s (laws.items requests.items) typed),
      )
