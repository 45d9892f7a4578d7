-- ===== src/Events/Queue.antt =====
-- `EventQueue` of crates/veloxity_core/src/events.rs. The log call of `push_or_log` is left out.
use veloxity.Base.{ℕ, Bool, ◌==◌, List, Option}
use veloxity.Events.Deque.{Deque}

pub record EventQueue (D : Type 0) : Type 0 where
  pub items : D

module _ {T D : Type 0} (dq : Deque T D) where
  unfoldable pub new : EventQueue D
  new = record { items = dq.empty }

  -- Whether the event was queued; otherwise the error is `Full`.
  unfoldable pub push : EventQueue D → T → EventQueue D × Bool
  push q event = let (items, ok) = dq.push_back q.items event in (record { items = items }, ok)

  unfoldable pub push_or_log : EventQueue D → T → EventQueue D × Bool
  unfolding push
  push_or_log q event = push q event

  unfoldable pub pop : EventQueue D → EventQueue D × Option T
  pop q = let (items, event) = dq.pop_front q.items in (record { items = items }, event)

  unfoldable pub clear : EventQueue D → EventQueue D
  clear q = record { items = dq.clear q.items }

  unfoldable pub len : EventQueue D → ℕ
  len q = dq.len q.items

  unfoldable pub is_empty : EventQueue D → Bool
  is_empty q = dq.len q.items == 0

  unfoldable pub is_full : ℕ → EventQueue D → Bool
  is_full capacity q = dq.len q.items == capacity

  unfoldable pub iter : EventQueue D → List T
  iter q = dq.iter q.items
