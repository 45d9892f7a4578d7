-- ===== src/StateMachine/Flags.antt =====
-- `ErrorFlag` of crates/veloxity_core/src/state_machine.rs: the eight named bits of the u16, a field
-- each, and the bitflags operations on them.
pub mod Laws
use veloxity.Base.{Bool, true, false, not, ◌&&◌, ◌||◌}

pub record ErrorFlag : Type 0 where
  pub invalid_mixer : Bool
  pub imu_not_responding : Bool
  pub rc_lost : Bool
  pub unhealthy_estimator : Bool
  pub time_going_backwards : Bool
  pub uncalibrated_imu : Bool
  pub buffer_overrun : Bool
  pub invalid_failsafe : Bool

-- The empty set, `ErrorFlag::default()`.
abbrev pub no_error : ErrorFlag
no_error = record {
  invalid_mixer = false;
  imu_not_responding = false;
  rc_lost = false;
  unhealthy_estimator = false;
  time_going_backwards = false;
  uncalibrated_imu = false;
  buffer_overrun = false;
  invalid_failsafe = false;
}

abbrev pub invalid_mixer : ErrorFlag
invalid_mixer = record no_error { invalid_mixer = true }

abbrev pub imu_not_responding : ErrorFlag
imu_not_responding = record no_error { imu_not_responding = true }

abbrev pub rc_lost : ErrorFlag
rc_lost = record no_error { rc_lost = true }

abbrev pub time_going_backwards : ErrorFlag
time_going_backwards = record no_error { time_going_backwards = true }

abbrev pub unhealthy_estimator : ErrorFlag
unhealthy_estimator = record no_error { unhealthy_estimator = true }

abbrev pub uncalibrated_imu : ErrorFlag
uncalibrated_imu = record no_error { uncalibrated_imu = true }

abbrev pub buffer_overrun : ErrorFlag
buffer_overrun = record no_error { buffer_overrun = true }

abbrev pub invalid_failsafe : ErrorFlag
invalid_failsafe = record no_error { invalid_failsafe = true }

abbrev pointwise : (Bool → Bool → Bool) → ErrorFlag → ErrorFlag → ErrorFlag
pointwise f a b = record {
  invalid_mixer = f a.invalid_mixer b.invalid_mixer;
  imu_not_responding = f a.imu_not_responding b.imu_not_responding;
  rc_lost = f a.rc_lost b.rc_lost;
  unhealthy_estimator = f a.unhealthy_estimator b.unhealthy_estimator;
  time_going_backwards = f a.time_going_backwards b.time_going_backwards;
  uncalibrated_imu = f a.uncalibrated_imu b.uncalibrated_imu;
  buffer_overrun = f a.buffer_overrun b.buffer_overrun;
  invalid_failsafe = f a.invalid_failsafe b.invalid_failsafe;
}

abbrev all_set : ErrorFlag → Bool
all_set a =
    a.invalid_mixer
    && (a.imu_not_responding
        && (a.rc_lost
            && (a.unhealthy_estimator
                && (a.time_going_backwards
                    && (a.uncalibrated_imu && (a.buffer_overrun && a.invalid_failsafe))))))

abbrev same_bit : Bool → Bool → Bool
same_bit true b = b
same_bit false b = not b

unfoldable pub insert : ErrorFlag → ErrorFlag → ErrorFlag
insert = pointwise λ a b. a || b

unfoldable pub remove : ErrorFlag → ErrorFlag → ErrorFlag
remove = pointwise λ a b. a && not b

unfoldable pub contains : ErrorFlag → ErrorFlag → Bool
contains a b = all_set (pointwise (λ x y. not y || x) a b)

unfoldable pub is_empty : ErrorFlag → Bool
is_empty a = all_set (pointwise (λ x y. not x) a no_error)

-- A constant in a pattern is compared by the derived equality, bit by bit.
unfoldable pub equals : ErrorFlag → ErrorFlag → Bool
equals a b = all_set (pointwise same_bit a b)
