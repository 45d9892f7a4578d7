-- ===== src/Control/Stages.antt =====
-- The traits that the control pipeline runs: crates/veloxity_core/src/estimator.rs, controller.rs and
-- mixer.rs. A method returns the changed object first.
use veloxity.Base.{ℕ, Bool, List, Option}
use veloxity.Params.{Params, ParamId}
use veloxity.StateMachine.Manager.{StateManager}
use veloxity.Command.Types.{CombinedControl}
use veloxity.Pwm.Driver.{MixerOutputType}

pub data MixerStatus : Type 0 where
  healthy invalid_mixer : MixerStatus

-- `Sn` holds the sensors' samples, `X` is an external attitude and `S` the estimator's state. The dt is
-- made of the two timestamps.
pub record Estimator (F R E Sn X S : Type 0) : Type 0 where
  pub estimate : E → Sn → Params F → R → Option X → E × S
  pub is_healthy : S → Bool
  pub update_params : E → Params F → E

-- `U` is the controller's output. The controller may change the state manager.
pub record Controller (F R C S U : Type 0) : Type 0 where
  pub control : C → S → StateManager → CombinedControl F → Params F → R → R → C × StateManager × U
  pub update_gains : C → Params F → C

-- `A` holds the actuator commands, and `as_ref` reads them as a list.
pub record Mixer (F R M U A : Type 0) : Type 0 where
  pub mix : M → U → StateManager → Params F → ℕ → R → Option R → M × A × MixerStatus
  pub as_ref : A → List R
  pub output_types : M → List MixerOutputType
  pub default_pwm_rates : M → List R
  pub on_param_changed : M → Params F → ParamId → M × Option MixerStatus
  pub refresh_params : M → Params F → M × Option MixerStatus
