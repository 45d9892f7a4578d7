-- ===== src/Tests/Reactions.antt =====
-- The theorem on the reactions to changed parameters at a concrete input.
use veloxity.Base.{◌≡◌, refl, sym, Bool, false, List, [], ◌∷◌, inr, arith}
use veloxity.Base.Int.{ℤ, pos}
use veloxity.Params.{Params, int, set_by_id, get_by_id-set_ne, param_rc_x_channel}
use veloxity.StateMachine.Flags.{no_error}
use veloxity.StateMachine.Machine.{preflight}
use veloxity.Rc.Config.{init}
use veloxity.Rc.Mapping.{IsConfigured, init-IsConfigured}
use veloxity.Command.Manager
use veloxity.Pipeline.Change.{ParamChanged}
use veloxity.Reactions.Apply.{Reacting, apply_param_reactions}
use veloxity.Reactions.Mappings.{any_changed}
use veloxity.Reactions.Configured.{AreChanged, reactions_configure}
use veloxity.Events.Queue.{iter}
use veloxity.Tests.Data.{hundredths, zero_params, manager, held_sticks}
use veloxity.Tests.Queues.{pair_deque, pair_deque_laws}
use veloxity.Tests.Pwm.{estimator, controller, mixer, pipeline}

-- The roll stick moves to channel 2.
abbrev moved : Params ℤ
moved = set_by_id zero_params param_rc_x_channel (int (pos 2))

abbrev reacting :
    Reacting ℤ ℤ (Unit {0}) (Unit {0}) (Unit {0}) (List (ParamChanged ℤ)) Bool (List ℤ)
reacting = record {
  changes = record {
    items = record { id = param_rc_x_channel; old = int (pos 0); new = int (pos 2) } ∷ [];
  };
  full_refresh = false;
  rc = init held_sticks zero_params;
  command = Manager.new;
  state = manager (preflight no_error);
  estimator = tt;
  controller = tt;
  mixer = tt;
  control_pipeline = pipeline.resource;
}

moved-AreChanged : AreChanged zero_params moved reacting.changes.items
unfolding any_changed
moved-AreChanged = record {
  others = λ id h.
      sym (get_by_id-set_ne zero_params param_rc_x_channel id (int (pos 2)) (ground (arith, h)));
  counts = refl;
}

reactions_configure_example :
    let c' = apply_param_reactions pair_deque estimator controller mixer moved reacting in
    IsConfigured c'.rc moved × (c'.changes.items ≡ []) × (c'.full_refresh ≡ false)
unfolding iter
reactions_configure_example =
    reactions_configure pair_deque pair_deque_laws estimator controller mixer moved reacting
      zero_params (inr (init-IsConfigured held_sticks zero_params, moved-AreChanged))
