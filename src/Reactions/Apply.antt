-- ===== src/Reactions/Apply.antt =====
-- `apply_param_reactions` of crates/veloxity_core/src/params/reactions.rs.
use veloxity.Base.{Bool, true, false, ◌||◌, List, [], ◌∷◌, Option, none, some, ◌==◌, if◌then◌else◌}
use veloxity.Float.{Float}
use veloxity.Params.{Params, param_failsafe_throttle, param_fixed_wing}
use veloxity.StateMachine.Flags.{invalid_mixer}
use veloxity.StateMachine.Machine.{error_occurred, error_cleared}
use veloxity.StateMachine.Manager.{StateManager, update}
use veloxity.Rc.Types.{Rc}
use veloxity.Rc.Config.{init, param_change_callback}
use veloxity.Command.Manager.{CommandManager, update_failsafe_config}
use veloxity.Events.Deque.{Deque}
use veloxity.Events.Queue.{EventQueue, iter, clear}
use veloxity.Pipeline.Change.{ParamChanged}
use veloxity.Control.Stages.{Estimator, Controller, Mixer, MixerStatus, healthy}
use veloxity.Control.Stages
use veloxity.Control.Run.{ControlPipelineResource, invalidate_pwm_rates}

-- What the reactions can change.
pub record Reacting (F R E C M D S A : Type 0) : Type 0 where
  pub changes : EventQueue D
  pub full_refresh : Bool
  pub rc : Rc F
  pub command : CommandManager F
  pub state : StateManager
  pub estimator : E
  pub controller : C
  pub mixer : M
  pub control_pipeline : ControlPipelineResource R S A

abbrev pub has_any : {T : Type 0} → List T → Bool
has_any [] = false
has_any (x ∷ xs) = true

module _ {F R E C M D Sn X S U A : Type 0} ⦃fl : Float F⦄ (dq : Deque (ParamChanged F) D)
    (est : Estimator F R E Sn X S) (con : Controller F R C S U) (mix : Mixer F R M U A)
    (params : Params F) where
  abbrev pub status_changed :
      Reacting F R E C M D S A → M × Option MixerStatus → Reacting F R E C M D S A
  status_changed c (mixer, none) = record c { mixer = mixer }
  status_changed c (mixer, some healthy) = record c {
    mixer = mixer;
    control_pipeline = invalidate_pwm_rates c.control_pipeline;
    state = update c.state (error_cleared invalid_mixer) params;
  }
  status_changed c (mixer, some Stages.invalid_mixer) = record c {
    mixer = mixer;
    control_pipeline = invalidate_pwm_rates c.control_pipeline;
    state = update c.state (error_occurred invalid_mixer) params;
  }

  unfoldable pub mixer_refresh_params : Reacting F R E C M D S A → Reacting F R E C M D S A
  unfolding invalidate_pwm_rates
  mixer_refresh_params c = status_changed c (mix.refresh_params c.mixer params)

  unfoldable pub mixer_on_param_changed :
      List (ParamChanged F) → Reacting F R E C M D S A → Reacting F R E C M D S A
  unfolding invalidate_pwm_rates
  mixer_on_param_changed [] c = c
  mixer_on_param_changed (change ∷ changes) c =
      mixer_on_param_changed changes
        (status_changed c (mix.on_param_changed c.mixer params change.id))

  unfoldable pub rc_on_param_changed :
      List (ParamChanged F) → Reacting F R E C M D S A → Reacting F R E C M D S A
  unfolding param_change_callback
  rc_on_param_changed [] c = c
  rc_on_param_changed (change ∷ changes) c =
      rc_on_param_changed changes (record c { rc = param_change_callback c.rc change.id params })

  abbrev pub failsafe_updated :
      Reacting F R E C M D S A → CommandManager F × StateManager → Reacting F R E C M D S A
  failsafe_updated c (command, state) = record c { command = command; state = state }

  unfoldable pub command_on_param_changed :
      List (ParamChanged F) → Reacting F R E C M D S A → Reacting F R E C M D S A
  unfolding update_failsafe_config
  command_on_param_changed [] c = c
  command_on_param_changed (change ∷ changes) c = command_on_param_changed changes (
      if change.id == param_failsafe_throttle || change.id == param_fixed_wing
      then failsafe_updated c (update_failsafe_config c.command params c.state)
      else c)

  abbrev pub refreshed : Reacting F R E C M D S A → Reacting F R E C M D S A
  refreshed c =
      let c' = record c { rc = init c.rc params } in
      failsafe_updated c' (update_failsafe_config c'.command params c'.state)

  abbrev pub gains_updated : Bool → Reacting F R E C M D S A → Reacting F R E C M D S A
  gains_updated true c = record c {
    estimator = est.update_params c.estimator params;
    controller = con.update_gains c.controller params;
  }
  gains_updated false c = c

  abbrev pub settled : Reacting F R E C M D S A → Reacting F R E C M D S A
  settled c = record c { changes = clear dq c.changes; full_refresh = false }

  unfoldable pub apply_param_reactions : Reacting F R E C M D S A → Reacting F R E C M D S A
  unfolding iter init mixer_refresh_params mixer_on_param_changed rc_on_param_changed
      command_on_param_changed update_failsafe_config clear
  apply_param_reactions c =
      let changed = iter dq c.changes in
      settled (
        gains_updated (c.full_refresh || has_any changed) (
          if c.full_refresh
          then refreshed (mixer_refresh_params c)
          else command_on_param_changed changed
              (rc_on_param_changed changed (mixer_on_param_changed changed c))))

unfoldable pub mark_all_params_changed :
    {F R E C M D S A : Type 0} → Reacting F R E C M D S A → Reacting F R E C M D S A
mark_all_params_changed c = record c { full_refresh = true }
