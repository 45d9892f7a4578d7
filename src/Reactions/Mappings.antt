-- ===== src/Reactions/Mappings.antt =====
-- What several changes do to the mappings of crates/veloxity_core/src/rc.rs.
use veloxity.Base.{
  ◌≡◌, refl, ap, ◌∙◌, Bool, true, false, Bool-cases, inl, inr, ◌||◌, List, [], ◌∷◌, ◌==◌,
  if◌then◌else◌, arith,
}
use veloxity.Base.Int.{ℤ}
use veloxity.Params.{
  Params, ParamId, get_by_id, param_rc_x_channel, param_rc_y_channel, param_rc_z_channel,
  param_rc_f_channel, param_rc_num_channels, param_rc_arm_channel,
  param_rc_attitude_override_channel, param_rc_throttle_override_channel,
  param_rc_att_control_type_channel, param_rc_output_kill_channel, param_rc_switch_5_direction,
  param_rc_switch_6_direction, param_rc_switch_7_direction, param_rc_switch_8_direction,
}
use veloxity.Rc.Types.{Rc}
use veloxity.Rc.Config.{
  is_stick_param, is_switch_param, init_sticks, switch_direction, switch_config,
  update_switch_mappings, param_change_callback,
}
use veloxity.Rc.Mapping.{stick-not_switch}
use veloxity.Pipeline.Change.{ParamChanged}

module _ {F : Type 0} where
  -- Whether the test holds of one of the changed parameters.
  unfoldable pub any_changed : (ParamId → Bool) → List (ParamChanged F) → Bool
  any_changed test [] = false
  any_changed test (change ∷ changes) = test change.id || any_changed test changes

  pub any_changed-not :
      (test : ParamId → Bool) (changes : List (ParamChanged F)) (id : ParamId)
      → any_changed test changes ≡ false
      → test id ≡ true
      → any_changed (λ i. i == id) changes ≡ false
  unfolding any_changed
  any_changed-not test [] id none h = refl
  any_changed-not test (change ∷ changes) id none h = elim (Bool-cases (change.id == id)) [
    | inl same ↦
        let e : change.id ≡ id = ground (arith, same) in absurd (ground (arith, none, ap test e, h))
    | inr other ↦ rw other (any_changed-not test changes id (ground (arith, none)) h)
  ]

  -- `rc_on_param_changed` on the handler alone.
  unfoldable pub called_back : Params F → List (ParamChanged F) → Rc F → Rc F
  called_back params [] r = r
  called_back params (change ∷ changes) r =
      called_back params changes (param_change_callback r change.id params)

  -- A part of the handler that the callback sets to `target` for the parameters of the test, and else
  -- keeps, is the target after several calls exactly when one of them was for such a parameter.
  pub part-called_back :
      {T : Type 0} (part : Rc F → T) (test : ParamId → Bool) (target : T) (params : Params F)
      (changes : List (ParamChanged F)) (r : Rc F)
      → ((r' : Rc F) (id : ParamId)
          → part (param_change_callback r' id params) ≡ (if test id then target else part r'))
      → part (called_back params changes r) ≡ (if any_changed test changes then target else part r)
  unfolding called_back any_changed
  part-called_back part test target params [] r sets = refl
  part-called_back part test target params (change ∷ changes) r sets =
      part-called_back part test target params changes (param_change_callback r change.id params)
        sets
      ∙ elim (Bool-cases (test change.id)) [
        | inl hit ↦ rw (sets r change.id, hit) (if_same (any_changed test changes) target)
        | inr miss ↦ rw (sets r change.id, miss) refl
      ]
    where
      if_same : {T : Type 0} (b : Bool) (t : T) → (if b then t else t) ≡ t
      if_same true t = refl
      if_same false t = refl

  pub sticks-callback :
      (r0 r : Rc F) (params : Params F) (id : ParamId)
      → (param_change_callback r id params).sticks
        ≡ (if is_stick_param id then (init_sticks r0 params).sticks else r.sticks)
  unfolding param_change_callback init_sticks update_switch_mappings
  sticks-callback r0 r params id = elim (Bool-cases (is_stick_param id)) [
    | inl moved ↦ rw moved refl
    | inr kept ↦ elim (Bool-cases (is_switch_param id)) [
      | inl moved ↦ rw (kept, moved) refl
      | inr same ↦ rw (kept, same) refl
    ]
  ]

  pub switches-callback :
      (r0 r : Rc F) (params : Params F) (id : ParamId)
      → (param_change_callback r id params).switches
        ≡ (if is_switch_param id then (update_switch_mappings r0 params).switches else r.switches)
  unfolding param_change_callback init_sticks update_switch_mappings
  switches-callback r0 r params id = elim (Bool-cases (is_stick_param id)) [
    | inl moved ↦ rw (moved, stick-not_switch id moved) refl
    | inr kept ↦ elim (Bool-cases (is_switch_param id)) [
      | inl moved ↦ rw (kept, moved) refl
      | inr same ↦ rw (kept, same) refl
    ]
  ]

  -- The parameters agree on those that the test names.
  abbrev pub AgreeOn : (ParamId → Bool) → Params F → Params F → Type 0
  AgreeOn test p q = (id : ParamId) → test id ≡ true → get_by_id p id ≡ get_by_id q id

  pub sticks-AgreeOn :
      (r r' : Rc F) (p q : Params F)
      → AgreeOn is_stick_param p q
      → (init_sticks r p).sticks ≡ (init_sticks r' q).sticks
  unfolding init_sticks is_stick_param
  sticks-AgreeOn r r' p q same =
      rw
        (
          same param_rc_x_channel refl,
          same param_rc_y_channel refl,
          same param_rc_z_channel refl,
          same param_rc_f_channel refl,
        )
        refl

  direction-AgreeOn :
      (p q : Params F) (channel : ℤ)
      → AgreeOn is_switch_param p q
      → switch_direction p channel ≡ switch_direction q channel
  unfolding switch_direction is_switch_param
  direction-AgreeOn p q channel same =
      rw
        (
          same param_rc_switch_5_direction refl,
          same param_rc_switch_6_direction refl,
          same param_rc_switch_7_direction refl,
          same param_rc_switch_8_direction refl,
        )
        refl

  config-AgreeOn :
      (p q : Params F) (id : ParamId)
      → AgreeOn is_switch_param p q
      → get_by_id p param_rc_num_channels ≡ get_by_id q param_rc_num_channels
      → get_by_id p id ≡ get_by_id q id
      → switch_config p id ≡ switch_config q id
  unfolding switch_config
  config-AgreeOn p q id same counts here = rw (here, counts, direction-AgreeOn p q _ same) refl

  pub switches-AgreeOn :
      (r r' : Rc F) (p q : Params F)
      → AgreeOn is_switch_param p q
      → get_by_id p param_rc_num_channels ≡ get_by_id q param_rc_num_channels
      → (update_switch_mappings r p).switches ≡ (update_switch_mappings r' q).switches
  unfolding update_switch_mappings is_switch_param
  switches-AgreeOn r r' p q same counts =
      let config : (id : ParamId)
          → is_switch_param id ≡ true
          → switch_config p id ≡ switch_config q id =
        λ id h. config-AgreeOn p q id same counts (same id h) in
      rw
        (
          config param_rc_arm_channel refl,
          config param_rc_attitude_override_channel refl,
          config param_rc_throttle_override_channel refl,
          config param_rc_att_control_type_channel refl,
          config param_rc_output_kill_channel refl,
        )
        refl
