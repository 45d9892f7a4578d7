-- ===== src/Pwm/Sync.antt =====
-- `sync_pwm_output_state` of crates/veloxity_core/src/pwm/output_sync.rs. A u32 mask is the function
-- from the index of a bit to the bit; only the 32 first are read.
use veloxity.Base.{
  ℕ, zero, suc, ◌/◌, ◌%◌, ◌^◌, Bool, true, false, not, ◌&&◌, ◌||◌, ltb, ◌==◌, min, if◌then◌else◌,
}
use veloxity.Base.Int.{ℤ, pos, negsuc, as_u32, ltb_ℤ, eqb_ℤ}
use veloxity.Pwm.Driver.{Result, ok, err, PwmDriver}

abbrev pub Mask : Type 0
Mask = ℕ → Bool

abbrev pub no_bits : Mask
no_bits channel = false

abbrev pub all_bits : Mask
all_bits channel = true

abbrev pub bits_of : ℕ → Mask
bits_of n channel = ((n / 2 ^ channel) % 2) == 1

abbrev pub and_mask : Mask → Mask → Mask
and_mask a b channel = a channel && b channel

abbrev pub and_not_mask : Mask → Mask → Mask
and_not_mask a b channel = a channel && not (b channel)

abbrev pub set_bit : Mask → ℕ → Bool → Mask
set_bit a i v channel = if i == channel then v else a channel

abbrev same_bit : Bool → Bool → Bool
same_bit true b = b
same_bit false b = not b

-- `==` on the `n` lowest bits.
unfoldable pub same_mask : ℕ → Mask → Mask → Bool
same_mask zero a b = true
same_mask (suc n) a b = same_bit (a n) (b n) && same_mask n a b

-- `!= 0` on the `n` lowest bits.
unfoldable pub any_bit : ℕ → Mask → Bool
any_bit zero a = false
any_bit (suc n) a = a n || any_bit n a

abbrev pub u32_bits : ℕ
u32_bits = 32

pub record PwmOutputState : Type 0 where
  pub enabled_mask : Mask

unfoldable pub new : Bool → PwmOutputState
new enabled = record { enabled_mask = if enabled then all_bits else no_bits }

unfoldable pub is_enabled : PwmOutputState → Bool
unfolding any_bit
is_enabled output = any_bit u32_bits output.enabled_mask

unfoldable pub desired_mask : Bool → ℤ → Mask → Mask
desired_mask output_kill_active channel_output_mask available =
    if output_kill_active
    then no_bits
    else if eqb_ℤ channel_output_mask (negsuc 0)
    then available
    else if not (ltb_ℤ channel_output_mask (pos 0))
    then and_mask (bits_of (as_u32 channel_output_mask)) available
    else no_bits

-- The driver, the output state and `applied_mask`.
pub record Syncing (D : Type 0) : Type 0 where
  pub pwm : D
  pub output : PwmOutputState
  pub applied : Mask

-- The driver, the output state and what the function returns.
abbrev pub Synced : Type 0 → Type 0
Synced D = D × PwmOutputState × Result Bool

module _ {D : Type 0} where
  abbrev pub switched : Syncing D → ℕ → Bool → D × Result (Unit {0}) → Syncing D × Result (Unit {0})
  switched s channel value (pwm, ok _) = (
    record {
      pwm = pwm;
      output = record { enabled_mask = set_bit s.applied channel value };
      applied = set_bit s.applied channel value;
    },
    ok tt,
  )
  switched s channel value (pwm, err e) = (record s { pwm = pwm }, err e)

  -- `?`: the rest runs after a success only.
  abbrev pub continue :
      {A : Type 0}
      → (Syncing D → Syncing D × Result A)
      → Syncing D × Result (Unit {0})
      → Syncing D × Result A
  continue rest (s, ok _) = rest s
  continue rest (s, err e) = (s, err e)

  -- The loop over `rounds` channels from `channel` on that disables or enables those in `mask`.
  unfoldable pub switch_channels :
      (D → ℕ → D × Result (Unit {0}))
      → Bool
      → Mask
      → ℕ
      → ℕ
      → Syncing D
      → Syncing D × Result (Unit {0})
  switch_channels call value mask zero channel s = (s, ok tt)
  switch_channels call value mask (suc rounds) channel s =
      continue (switch_channels call value mask rounds (suc channel))
        (if mask channel then switched s channel value (call s.pwm channel) else (s, ok tt))

  abbrev pub finished : Syncing D × Result (Unit {0}) → Synced D
  finished (s, ok _) = (s.pwm, s.output, ok true)
  finished (s, err e) = (s.pwm, s.output, err e)

  abbrev pub enabled_all : PwmOutputState → Mask → D × Result (Unit {0}) → Synced D
  enabled_all output desired (pwm, ok _) = (pwm, record { enabled_mask = desired }, ok true)
  enabled_all output desired (pwm, err e) = (pwm, output, err e)

module _ {R D : Type 0} (dr : PwmDriver R D) where
  unfoldable pub channel_count : D → ℕ
  channel_count pwm = min (dr.len pwm) u32_bits

  abbrev pub flushed : Bool → Syncing D → Syncing D
  flushed true s = record s { pwm = dr.flush s.pwm }
  flushed false s = s

  -- The two loops and the flush between them.
  unfoldable pub switch_outputs : Mask → Mask → ℕ → Syncing D → Synced D
  unfolding switch_channels any_bit
  switch_outputs desired current count s =
      let disable_mask = and_not_mask current desired in
      finished (
        continue
          (λ s'.
            switch_channels dr.enable true (and_not_mask desired current) count 0
              (flushed (any_bit u32_bits disable_mask) s'))
          (switch_channels dr.disable false disable_mask count 0 s))

  unfoldable pub sync_pwm_output_state : D → PwmOutputState → Bool → ℤ → Synced D
  unfolding channel_count desired_mask same_mask switch_outputs
  sync_pwm_output_state pwm output output_kill_active channel_output_mask =
      let count = channel_count pwm in
      let available : Mask = λ channel. ltb channel count in
      let desired = desired_mask output_kill_active channel_output_mask available in
      let current = and_mask output.enabled_mask available in
      if same_mask u32_bits desired current
      then (pwm, record { enabled_mask = current }, ok false)
      else if same_mask u32_bits desired available && same_mask u32_bits current no_bits
      then enabled_all output desired (dr.enable_all pwm)
      else if same_mask u32_bits desired no_bits
      then (dr.flush (dr.disable_all pwm), record { enabled_mask = no_bits }, ok true)
      else switch_outputs desired current count
          (record { pwm = pwm; output = output; applied = current })
