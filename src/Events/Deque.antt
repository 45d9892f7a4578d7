-- ===== src/Events/Deque.antt =====
-- The double-ended queue of the third-party crate heapless that
-- crates/veloxity_core/src/events.rs is built on, as far as it is used, with its documented behaviour.
use veloxity.Base.{
  ℕ, ◌<◌, ◌≤◌, ◌≡◌, Bool, true, false, List, [], ◌∷◌, ◌++◌, Option, none, some, length,
}

pub record Deque (T D : Type 0) : Type 0 where
  pub empty : D
  -- Whether there was room.
  pub push_back : D → T → D × Bool
  pub pop_front : D → D × Option T
  pub clear : D → D
  pub len : D → ℕ
  pub iter : D → List T

-- The items, the front first, are at most the capacity; an item that is pushed goes to the back, or
-- is refused when there is no room; and one that is popped comes from the front.
pub record IsDeque {T D : Type 0} (dq : Deque T D) : Type 0 where
  pub capacity : ℕ
  pub items : D → List T
  pub items-empty : items dq.empty ≡ []
  pub items-clear : (d : D) → items (dq.clear d) ≡ []
  pub items-iter : (d : D) → dq.iter d ≡ items d
  pub length-items : (d : D) → dq.len d ≡ length (items d)
  pub push_room :
      (d : D) (x : T)
      → length (items d) < capacity
      → (items (dq.push_back d x).0 ≡ items d ++ x ∷ []) × ((dq.push_back d x).1 ≡ true)
  pub push_full : (d : D) (x : T) → capacity ≤ length (items d) → dq.push_back d x ≡ (d, false)
  pub pop_none :
      (d : D) → items d ≡ [] → (items (dq.pop_front d).0 ≡ []) × ((dq.pop_front d).1 ≡ none)
  pub pop_some :
      (d : D) (x : T) (xs : List T)
      → items d ≡ x ∷ xs
      → (items (dq.pop_front d).0 ≡ xs) × ((dq.pop_front d).1 ≡ some x)
