-- ===== src/Rc/Holding.antt =====
-- Holding the arming stick position over many frames: the timer of `look_for_arm_disarm_signal` in
-- crates/veloxity_core/src/rc.rs.
use veloxity.Base.{
  ℕ, ◌+◌, ◌-◌, ◌≤◌, ◌<◌, ◌≡◌, refl, ◌∙◌, ap, true, false, List, [], ◌∷◌, ◌++◌, arith,
}
use veloxity.Float.{Float}
use veloxity.Params.{Params}
use veloxity.StateMachine.Machine.{request_arm}
use veloxity.StateMachine.Manager.{StateManager, is_armed, update, update_arming_safety}
use veloxity.StateMachine.Arming.{ArmCause, armed_iff}
use veloxity.Rc.Types.{Rc, arm, stick, switch_on, switch_mapped}
use veloxity.Rc.Handler.{
  throttle_low, arming_position, tell_arming_safety, look_for_arm_disarm_signal,
}

-- The times do not run backwards.
abbrev pub Ascending : ℕ → List ℕ → Type 0
Ascending t [] = Unit {0}
Ascending t (u ∷ us) = (t ≤ u) × Ascending u us

abbrev pub last_time : ℕ → List ℕ → ℕ
last_time t [] = t
last_time t (u ∷ us) = last_time u us

module _ {F : Type 0} ⦃fl : Float F⦄ (params : Params F) where
  -- One look at the signal for each of the times.
  unfoldable pub look_over : Rc F → List ℕ → StateManager → Rc F × StateManager
  look_over r [] s = (r, s)
  look_over r (t ∷ ts) s =
      let (r', s') = look_for_arm_disarm_signal r t params s in look_over r' ts s'

  abbrev at_time : Rc F → ℕ → ℕ → Rc F
  at_time r t held_ms = record r {
    prev_time_ms = t;
    time_sticks_have_been_in_arming_position_ms = held_ms;
  }

  -- The sticks are in the arming position, and no channel is mapped to the arm switch.
  pub record IsHolding (r : Rc F) : Type 0 where
    pub unmapped : switch_mapped r arm ≡ false
    pub in_position : arming_position r params ≡ true

  look_waits :
      (r : Rc F) (s : StateManager) (t held_ms u : ℕ)
      → IsHolding r
      → is_armed s ≡ false
      → held_ms + (u - t) ≤ 1000
      → look_for_arm_disarm_signal (at_time r t held_ms) u params s
        ≡ (at_time r u (held_ms + (u - t)), s)
  unfolding look_for_arm_disarm_signal switch_mapped arming_position throttle_low stick
  look_waits r s t held_ms u h a b = ground arith

  look_requests :
      (r : Rc F) (s : StateManager) (t held_ms u : ℕ)
      → IsHolding r
      → is_armed s ≡ false
      → 1000 < held_ms + (u - t)
      → (look_for_arm_disarm_signal (at_time r t held_ms) u params s).1
        ≡ update (tell_arming_safety r params s) request_arm params
  unfolding look_for_arm_disarm_signal switch_mapped arming_position throttle_low stick switch_on
  look_requests r s t held_ms u h a b = ground arith

  le-last_time : (t : ℕ) (us : List ℕ) → Ascending t us → t ≤ last_time t us
  le-last_time t [] h = omega arith
  le-last_time t (u ∷ us) h = omega (arith, le-last_time u us h.1)

  look_over-cons :
      (r : Rc F) (t : ℕ) (ts : List ℕ) (s : StateManager) {r' : Rc F} {s' : StateManager}
      → look_for_arm_disarm_signal r t params s ≡ (r', s')
      → look_over r (t ∷ ts) s ≡ look_over r' ts s'
  unfolding look_over
  look_over-cons r t ts s e = ap (λ (p : Rc F × StateManager). look_over p.0 ts p.1) e

  look_over-append :
      (r : Rc F) (ts us : List ℕ) (s : StateManager)
      → look_over r (ts ++ us) s ≡ look_over (look_over r ts s).0 us (look_over r ts s).1
  unfolding look_over
  look_over-append r [] us s = refl
  look_over-append r (t ∷ ts) us s =
      let (r', s') = look_for_arm_disarm_signal r t params s in look_over-append r' ts us s'

  wait_over :
      (r : Rc F) (s : StateManager) (ts : List ℕ) (t held_ms : ℕ)
      → IsHolding r
      → is_armed s ≡ false
      → Ascending t ts
      → held_ms + (last_time t ts - t) ≤ 1000
      → look_over (at_time r t held_ms) ts s
        ≡ (at_time r (last_time t ts) (held_ms + (last_time t ts - t)), s)
  unfolding look_over
  wait_over r s [] t held_ms h a asc short = ap (λ (n : ℕ). (at_time r t n, s)) (omega arith)
  wait_over r s (v ∷ ts) t held_ms h a asc short =
      let later = le-last_time v ts asc.1 in
      look_over-cons (at_time r t held_ms) v ts s (look_waits r s t held_ms v h a (omega arith))
      ∙ wait_over r s ts v (held_ms + (v - t)) h a asc.1 (omega arith)
      ∙ ap (λ (n : ℕ). (at_time r (last_time v ts) n, s)) (omega arith)

  look_over_once :
      (r : Rc F) (s : StateManager) (t held_ms u : ℕ)
      → IsHolding r
      → is_armed s ≡ false
      → 1000 < held_ms + (u - t)
      → (look_over (at_time r t held_ms) (u ∷ []) s).1
        ≡ update (tell_arming_safety r params s) request_arm params
  unfolding look_over
  look_over_once r s t held_ms u h a long = look_requests r s t held_ms u h a long

  told-armed : (r : Rc F) (s : StateManager) → is_armed (tell_arming_safety r params s) ≡ is_armed s
  unfolding is_armed update_arming_safety
  told-armed r s = refl

  -- While a disarmed vehicle with no channel mapped to the arm switch has its sticks in the arming
  -- position, at times that do not run backwards, and a request to arm would be granted, the first
  -- frame that comes more than a second after the timer was zero arms it, and no earlier frame
  -- requests anything.
  pub hold_arms :
      (r : Rc F) (s : StateManager) (ts : List ℕ) (u : ℕ)
      → IsHolding r
      → r.time_sticks_have_been_in_arming_position_ms ≡ 0
      → is_armed s ≡ false
      → Ascending r.prev_time_ms ts
      → last_time r.prev_time_ms ts ≤ r.prev_time_ms + 1000
      → r.prev_time_ms + 1000 < u
      → ArmCause (tell_arming_safety r params s) request_arm params
      → ((look_over r ts s).1 ≡ s) × (is_armed (look_over r (ts ++ u ∷ []) s).1 ≡ true)
  hold_arms r s ts u h zeroed a asc short long cause =
      let start = le-last_time r.prev_time_ms ts asc in
      let waited =
        wait_over r s ts r.prev_time_ms r.time_sticks_have_been_in_arming_position_ms h a asc
          (omega arith) in
      (
        ap (λ (p : Rc F × StateManager). p.1) waited,
        ap (λ (p : Rc F × StateManager). is_armed p.1) (look_over-append r ts (u ∷ []) s)
            ∙ ap (λ (p : Rc F × StateManager). is_armed (look_over p.0 (u ∷ []) p.1).1) waited
            ∙ ap is_armed (look_over_once r s (last_time r.prev_time_ms ts) _ u h a (omega arith))
            ∙ (armed_iff (tell_arming_safety r params s) params request_arm (told-armed r s ∙ a)).1
                cause,
      )
