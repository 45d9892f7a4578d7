-- ===== src/Companion/Inputs.antt =====
-- `apply_companion_inputs` of crates/veloxity_core/src/companion.rs. The messages are a parameter.
use veloxity.Base.{ℕ, zero, suc, Bool, true, false, Option, none, some}
use veloxity.Events.Deque.{Deque}
use veloxity.Events.Response.{CommResponse, hard_error}
use veloxity.Events.Queue.{EventQueue, pop, push_or_log, len}

pub record CompanionLinkState (M : Type 0) : Type 0 where
  pub connected : Bool
  pub last_heartbeat : Option M

-- One turn of the loop: the popped event is handled and the rest of the loop run, or the loop ends.
abbrev pub drain_turn : {T Q S : Type 0} → (S → T → S) → (S → Q × S) → Q → S → Option T → Q × S
drain_turn step rest q s none = (q, s)
drain_turn step rest q s (some event) = rest (step s event)

-- `while let Some(event) = queue.pop() { state = step(state, event) }`, with fuel.
unfoldable pub drain :
    {T D S : Type 0} → Deque T D → (S → T → S) → ℕ → EventQueue D → S → EventQueue D × S
drain dq step zero q s = (q, s)
drain dq step (suc fuel) q s =
    let (q', event) = pop dq q in drain_turn step (drain dq step fuel q') q' s event

module _ {T D : Type 0} (dq : Deque T D) where
  -- The loop over a queue, with fuel for each of its events and for the last, failing pop.
  unfoldable pub drain_all : {S : Type 0} → (S → T → S) → EventQueue D → S → EventQueue D × S
  unfolding drain
  drain_all step q s = drain dq step (suc (len dq q)) q s

  unfoldable pub apply_companion_heartbeats :
      EventQueue D → CompanionLinkState T → EventQueue D × CompanionLinkState T
  unfolding drain_all
  apply_companion_heartbeats =
      drain_all λ link msg. record { connected = true; last_heartbeat = some msg }

  -- `apply_aux_commands` and `apply_external_attitudes`: the latest message is kept.
  unfoldable pub apply_latest : EventQueue D → Option T → EventQueue D × Option T
  unfolding drain_all
  apply_latest = drain_all λ latest msg. some msg

module _ {P D M : Type 0} (dq : Deque (CommResponse P) D) where
  -- The pending error is taken whether or not there is room for the response.
  unfoldable pub emit_pending_hard_error_if_connected :
      EventQueue D → CompanionLinkState M → Option P → EventQueue D × Option P
  emit_pending_hard_error_if_connected responses link none = (responses, none)
  emit_pending_hard_error_if_connected responses link (some msg) = elim link.connected [
    | true ↦ ((push_or_log dq responses (hard_error msg)).0, none)
    | false ↦ (responses, some msg)
  ]
