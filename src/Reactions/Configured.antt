-- ===== src/Reactions/Configured.antt =====
-- After the reactions of crates/veloxity_core/src/params/reactions.rs the radio control is mapped as
-- the changed parameters say.
use veloxity.Base.{
  ◌≡◌, ◌⊎◌, refl, sym, ap, ◌∙◌, subst, Bool, true, false, inl, inr, ◌||◌, List, [], ◌∷◌, Option,
  none, some, ◌==◌, if◌then◌else◌, if_elim,
}
use veloxity.Float.{Float}
use veloxity.Params.{
  Params, ParamId, get_by_id, param_rc_num_channels, param_failsafe_throttle, param_fixed_wing,
}
use veloxity.Rc.Types.{Rc}
use veloxity.Rc.Config.{is_stick_param, is_switch_param, init_sticks, update_switch_mappings}
use veloxity.Rc.Mapping.{IsConfigured, init-IsConfigured}
use veloxity.Events.Deque.{Deque, IsDeque}
use veloxity.Events.Queue.{iter, clear}
use veloxity.Pipeline.Change.{ParamChanged}
use veloxity.Control.Stages.{Estimator, Controller, Mixer, MixerStatus, healthy}
use veloxity.Control.Stages
use veloxity.Reactions.Apply.{
  Reacting, has_any, status_changed, mixer_refresh_params, mixer_on_param_changed,
  rc_on_param_changed, command_on_param_changed, refreshed, gains_updated, apply_param_reactions,
}
use veloxity.Reactions.Mappings.{
  any_changed, any_changed-not, called_back, part-called_back, sticks-callback, switches-callback,
  sticks-AgreeOn, switches-AgreeOn,
}

-- The parameters are the old ones but for those that changed, the number of channels not among them.
pub record AreChanged {F : Type 0} (old params : Params F) (changes : List (ParamChanged F))
    : Type 0 where
  pub others :
      (id : ParamId)
      → any_changed (λ i. i == id) changes ≡ false
      → get_by_id old id ≡ get_by_id params id
  pub counts : any_changed (λ i. i == param_rc_num_channels) changes ≡ false

called_back-IsConfigured :
    {F : Type 0} (old params : Params F) (changes : List (ParamChanged F)) (r : Rc F)
    → IsConfigured r old
    → AreChanged old params changes
    → IsConfigured (called_back params changes r) params
called_back-IsConfigured {F} old params changes r h changed =
    let r' = called_back params changes r in
    let agree : (test : ParamId → Bool)
        → any_changed test changes ≡ false
        → (id : ParamId) → test id ≡ true
        → get_by_id old id ≡ get_by_id params id =
      λ test none id t. changed.others id (any_changed-not test changes id none t) in
    record {
      sticks =
          part-called_back (λ (r : Rc F). r.sticks) is_stick_param (init_sticks r' params).sticks
            params changes r (λ r0 id. sticks-callback r' r0 params id)
          ∙ if_elim (λ s. s ≡ (init_sticks r' params).sticks) (any_changed is_stick_param changes)
              (λ hit. refl)
              (λ none. h.sticks ∙ sticks-AgreeOn r r' old params (agree is_stick_param none));
      switches =
          part-called_back (λ (r : Rc F). r.switches) is_switch_param
            (update_switch_mappings r' params).switches params changes r
            (λ r0 id. switches-callback r' r0 params id)
          ∙ if_elim (λ s. s ≡ (update_switch_mappings r' params).switches)
              (any_changed is_switch_param changes) (λ hit. refl)
              (λ none.
                h.switches
                ∙ switches-AgreeOn r r' old params (agree is_switch_param none)
                    (changed.others param_rc_num_channels changed.counts));
    }

module _ {F R E C M D Sn X S U A : Type 0} ⦃fl : Float F⦄ (dq : Deque (ParamChanged F) D)
    (laws : IsDeque dq) (est : Estimator F R E Sn X S) (con : Controller F R C S U)
    (mix : Mixer F R M U A) (params : Params F) where
  rc-status_changed :
      (c : Reacting F R E C M D S A) (r : M × Option MixerStatus)
      → (status_changed dq est con mix params c r).rc ≡ c.rc
  rc-status_changed c (mixer, none) = refl
  rc-status_changed c (mixer, some healthy) = refl
  rc-status_changed c (mixer, some Stages.invalid_mixer) = refl

  rc-mixer_on_param_changed :
      (changes : List (ParamChanged F)) (c : Reacting F R E C M D S A)
      → (mixer_on_param_changed dq est con mix params changes c).rc ≡ c.rc
  unfolding mixer_on_param_changed
  rc-mixer_on_param_changed [] c = refl
  rc-mixer_on_param_changed (change ∷ changes) c =
      rc-mixer_on_param_changed changes
        (status_changed dq est con mix params c (mix.on_param_changed c.mixer params change.id))
      ∙ rc-status_changed c (mix.on_param_changed c.mixer params change.id)

  rc-command_on_param_changed :
      (changes : List (ParamChanged F)) (c : Reacting F R E C M D S A)
      → (command_on_param_changed dq est con mix params changes c).rc ≡ c.rc
  unfolding command_on_param_changed
  rc-command_on_param_changed [] c = refl
  rc-command_on_param_changed (change ∷ changes) c =
      rc-command_on_param_changed changes _
      ∙ if_elim (λ (c' : Reacting F R E C M D S A). c'.rc ≡ c.rc)
          (change.id == param_failsafe_throttle || change.id == param_fixed_wing) (λ hit. refl)
          (λ miss. refl)

  rc-rc_on_param_changed :
      (changes : List (ParamChanged F)) (c : Reacting F R E C M D S A)
      → (rc_on_param_changed dq est con mix params changes c).rc ≡ called_back params changes c.rc
  unfolding rc_on_param_changed called_back
  rc-rc_on_param_changed [] c = refl
  rc-rc_on_param_changed (change ∷ changes) c = rc-rc_on_param_changed changes _

  rc-gains_updated :
      (b : Bool) (c : Reacting F R E C M D S A)
      → (gains_updated dq est con mix params b c).rc ≡ c.rc
  rc-gains_updated true c = refl
  rc-gains_updated false c = refl

  -- A full refresh maps the radio control as the parameters say; and so do the reactions to changes of
  -- other parameters than the number of channels, where it was mapped as the parameters said before
  -- them. The changes are then empty and no refresh is pending.
  pub reactions_configure :
      (c : Reacting F R E C M D S A) (old : Params F)
      → (c.full_refresh ≡ true)
        ⊎ (IsConfigured c.rc old × AreChanged old params (iter dq c.changes))
      → let c' = apply_param_reactions dq est con mix params c in
        IsConfigured c'.rc params × (laws.items c'.changes.items ≡ []) × (c'.full_refresh ≡ false)
  unfolding apply_param_reactions iter clear
  reactions_configure c old h =
      let changed = iter dq c.changes in
      let b = c.full_refresh || has_any changed in
      let P : Reacting F R E C M D S A → Type 0 = λ c'. IsConfigured c'.rc params in
      let refreshed_c =
        refreshed dq est con mix params (mixer_refresh_params dq est con mix params c) in
      let mixed = mixer_on_param_changed dq est con mix params changed c in
      let mapped = rc_on_param_changed dq est con mix params changed mixed in
      let reacted = command_on_param_changed dq est con mix params changed mapped in
      let body = if c.full_refresh then refreshed_c else reacted in
      (
        subst (λ r. IsConfigured r params) (sym (rc-gains_updated b body))
            (if_elim P c.full_refresh
              (λ full. init-IsConfigured (mixer_refresh_params dq est con mix params c).rc params)
              (λ partial. elim h [
                | inl full ↦ absurd (cc (full, partial))
                | inr (before, agree) ↦
                    subst (λ r. IsConfigured r params)
                      (sym (
                        rc-command_on_param_changed changed mapped
                        ∙ rc-rc_on_param_changed changed mixed
                        ∙ ap (called_back params changed) (rc-mixer_on_param_changed changed c)))
                      (called_back-IsConfigured old params changed c.rc before agree)
              ])),
        laws.items-clear _,
        refl,
      )
