-- ===== src/Companion/Drained.antt =====
-- The loops of crates/veloxity_core/src/companion.rs end with an empty queue and the last message.
use veloxity.Base.{
  ℕ, zero, suc, ◌<◌, ◌≡◌, refl, ap, ◌∙◌, Bool, true, false, ◌||◌, List, [], ◌∷◌, Option, some,
  length, arith,
}
use veloxity.Events.Deque.{Deque, IsDeque}
use veloxity.Events.Queue.{EventQueue, pop, len}
use veloxity.Companion.Inputs.{
  CompanionLinkState, drain_turn, drain, drain_all, apply_companion_heartbeats,
}

unfoldable pub fold : {S T : Type 0} → (S → T → S) → S → List T → S
fold step s [] = s
fold step s (x ∷ xs) = fold step (step s x) xs

module _ {T D S : Type 0} (dq : Deque T D) (laws : IsDeque dq) (step : S → T → S) where
  drain-fold :
      (xs : List T) (fuel : ℕ) (q : EventQueue D) (s : S)
      → laws.items q.items ≡ xs
      → length xs < fuel
      → let (q', s') = drain dq step fuel q s in (laws.items q'.items ≡ []) × (s' ≡ fold step s xs)
  unfolding drain fold pop
  drain-fold xs zero q s e h = absurd (omega arith)
  drain-fold [] (suc fuel) q s e h =
      let (left, taken) = laws.pop_none q.items e in
      let q' = (pop dq q).0 in
      let turn = ap (drain_turn step (drain dq step fuel q') q' s) taken in
      (ap (λ r. laws.items r.0.items) turn ∙ left, ap (λ r. r.1) turn)
  drain-fold (x ∷ xs) (suc fuel) q s e h =
      let (left, taken) = laws.pop_some q.items x xs e in
      let q' = (pop dq q).0 in
      let turn = ap (drain_turn step (drain dq step fuel q') q' s) taken in
      let (emptied, folded) = drain-fold xs fuel q' (step s x) left (omega arith) in
      (ap (λ r. laws.items r.0.items) turn ∙ emptied, ap (λ r. r.1) turn ∙ folded)

  pub drain_all-fold :
      (q : EventQueue D) (s : S)
      → let (q', s') = drain_all dq step q s in
        (laws.items q'.items ≡ []) × (s' ≡ fold step s (laws.items q.items))
  unfolding drain_all len
  drain_all-fold q s =
      drain-fold (laws.items q.items) (suc (len dq q)) q s refl
        (omega (arith, laws.length-items q.items))

-- The last of the items, or else the value that was there.
abbrev pub last_or : {T : Type 0} → List T → Option T → Option T
last_or [] o = o
last_or (x ∷ xs) o = last_or xs (some x)

abbrev pub any_item : {T : Type 0} → List T → Bool
any_item [] = false
any_item (x ∷ xs) = true

abbrev heard : {T : Type 0} → CompanionLinkState T → T → CompanionLinkState T
heard link msg = record { connected = true; last_heartbeat = some msg }

fold-heard :
    {T : Type 0} (xs : List T) (link : CompanionLinkState T)
    → fold heard link xs ≡ record {
      connected = any_item xs || link.connected;
      last_heartbeat = last_or xs link.last_heartbeat;
    }
unfolding fold
fold-heard [] link = refl
fold-heard (x ∷ []) link = refl
fold-heard (x ∷ y ∷ xs) link = fold-heard (y ∷ xs) (heard link x)

module _ {T D : Type 0} (dq : Deque T D) (laws : IsDeque dq) where
  -- The loop over the queued heartbeats ends with the queue empty, the link connected if it was or if
  -- a heartbeat was queued, and the last heartbeat stored; the queue's own behaviour is assumed.
  pub heartbeats_applied :
      (q : EventQueue D) (link : CompanionLinkState T)
      → let (q', link') = apply_companion_heartbeats dq q link in
        (laws.items q'.items ≡ [])
        × (link'.connected ≡ (any_item (laws.items q.items) || link.connected))
        × (link'.last_heartbeat ≡ last_or (laws.items q.items) link.last_heartbeat)
  unfolding apply_companion_heartbeats
  heartbeats_applied q link =
      let (emptied, folded) = drain_all-fold dq laws heard q link in
      let done = folded ∙ fold-heard (laws.items q.items) link in
      (emptied, ap (λ l. l.connected) done, ap (λ l. l.last_heartbeat) done)
