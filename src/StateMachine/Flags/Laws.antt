-- ===== src/StateMachine/Flags/Laws.antt =====
-- Laws of the set operations on `ErrorFlag`.
use veloxity.Base.{◌≡◌, refl, true, false, not, ◌&&◌, ◌||◌, arith}
use veloxity.StateMachine.Flags.{
  ErrorFlag, no_error, rc_lost, insert, remove, contains, is_empty, equals,
}

pub insert_self : (flags : ErrorFlag) → insert flags flags ≡ flags
unfolding insert
insert_self flags = ground arith

pub remove-no_error : (flags : ErrorFlag) → remove flags no_error ≡ flags
unfolding remove
remove-no_error flags = ground arith

pub equals-no_error : equals no_error rc_lost ≡ false
unfolding equals
equals-no_error = refl

pub equals_rc_lost : equals rc_lost rc_lost ≡ true
unfolding equals
equals_rc_lost = refl

pub is_empty-insert : (a b : ErrorFlag) → is_empty b ≡ false → is_empty (insert a b) ≡ false
unfolding insert is_empty
is_empty-insert a b h = ground arith

pub rc_lost_insert : (a b : ErrorFlag) → (insert a b).rc_lost ≡ (a.rc_lost || b.rc_lost)
unfolding insert
rc_lost_insert a b = refl

pub rc_lost_remove : (a b : ErrorFlag) → (remove a b).rc_lost ≡ (a.rc_lost && not b.rc_lost)
unfolding remove
rc_lost_remove a b = refl

pub rc_lost_of_equals : (a : ErrorFlag) → equals a rc_lost ≡ true → a ≡ rc_lost
unfolding equals
rc_lost_of_equals a h = ground arith

pub is_empty_of_rc_lost : (a : ErrorFlag) → a.rc_lost ≡ true → is_empty a ≡ false
unfolding is_empty
is_empty_of_rc_lost a h = ground arith

pub contains_iff : (a : ErrorFlag) → contains a rc_lost ≡ a.rc_lost
unfolding contains
contains_iff a = ground arith

pub equals_of_is_empty : (a : ErrorFlag) → is_empty a ≡ true → equals a rc_lost ≡ false
unfolding is_empty equals
equals_of_is_empty a h = ground arith

pub remove-insert : (a b : ErrorFlag) → remove (insert a b) b ≡ remove a b
unfolding remove insert
remove-insert a b = ground arith
