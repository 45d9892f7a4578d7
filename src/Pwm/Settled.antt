-- ===== src/Pwm/Settled.antt =====
-- `sync_pwm_output_state` of crates/veloxity_core/src/pwm/output_sync.rs switches the driver's channels
-- to the desired mask, and the output kill switches all off.
use veloxity.Base.{
  both_left, both_right, ℕ, zero, suc, ◌%◌, ◌/◌, ◌^◌, ◌==◌, ◌<◌, ◌≡◌, refl, sym, ◌∙◌, subst, Bool,
  true, false, ◌&&◌, ltb, arith, if_elim,
}
use veloxity.Base.Int.{ℤ, pos, negsuc}
use veloxity.Pwm.Driver.{Result, ok, err, is_ok, PwmDriver, IsDriver}
use veloxity.Pwm.Sync.{
  Mask, no_bits, and_mask, same_mask, u32_bits, PwmOutputState, desired_mask, Synced, enabled_all,
  channel_count, switch_outputs, sync_pwm_output_state,
}
use veloxity.Pwm.Tracking.{same_mask-eq, Settles, switch_outputs-Settles}

in_range : (c n : ℕ) → c < n → ltb c n ≡ true
in_range c n h = ground arith

same_mask_comm : (n : ℕ) (a b : Mask) → same_mask n a b ≡ same_mask n b a
unfolding same_mask
same_mask_comm zero a b = refl
same_mask_comm (suc n) a b = ground (arith, a n, b n, same_mask_comm n a b)

same_mask_self : (n : ℕ) (a : Mask) → same_mask n a a ≡ true
unfolding same_mask
same_mask_self zero a = refl
same_mask_self (suc n) a = ground (arith, a n, same_mask_self n a)

-- What the kill and the parameter ask of a channel: off while the kill is active, else on for -1, off
-- for another negative parameter, and the channel's bit for the rest.
abbrev pub target : Bool → ℤ → ℕ → Bool
target true channel_output_mask c = false
target false (negsuc n) c = n == 0
target false (pos n) c = (n % 2 ^ 32 / 2 ^ c) % 2 == 1

desired_mask-target :
    (output_kill_active : Bool) (channel_output_mask : ℤ) (available : Mask) (c : ℕ)
    → available c ≡ true
    → desired_mask output_kill_active channel_output_mask available c
      ≡ target output_kill_active channel_output_mask c
unfolding desired_mask
desired_mask-target true param available c h = refl
desired_mask-target false (negsuc n) available c h = ground (arith, h)
desired_mask-target false (pos n) available c h = ground (arith, h)

module _ {R D : Type 0} (dr : PwmDriver R D) (laws : IsDriver dr) where
  enabled_all-Settles :
      (output : PwmOutputState) (desired : Mask) (c : ℕ) (pwm : D) (r : D × Result (Unit {0}))
      → (is_ok r.1 ≡ true → laws.is_on r.0 c ≡ desired c)
      → (is_ok r.1 ≡ false → laws.is_on r.0 c ≡ output.enabled_mask c)
      → Settles laws.is_on c (desired c) (enabled_all output desired r)
  enabled_all-Settles output desired c pwm (pwm', ok _) done failed = (done refl, refl)
  enabled_all-Settles output desired c pwm (pwm', err e) done failed = failed refl

  -- A channel that the driver has and on which the output state agrees with it is, after a call that
  -- succeeds, as the kill and the parameter say, in the driver and in the output state: off under the
  -- kill, else on for the parameter -1, off for another negative one, and the parameter's bit for the
  -- rest. After a call that fails the two still agree, where `enable_all` changes nothing when it fails.
  pub sync-Settles :
      (pwm : D) (output : PwmOutputState) (output_kill_active : Bool) (channel_output_mask : ℤ)
      (c : ℕ)
      → c < channel_count dr pwm
      → laws.is_on pwm c ≡ output.enabled_mask c
      → (is_ok (dr.enable_all pwm).1 ≡ false
          → laws.is_on (dr.enable_all pwm).0 c ≡ laws.is_on pwm c)
      → Settles laws.is_on c
          (target output_kill_active channel_output_mask c)
          (sync_pwm_output_state dr pwm output output_kill_active channel_output_mask)
  unfolding sync_pwm_output_state
  sync-Settles pwm output kill param c h t failing =
      let count = channel_count dr pwm in
      let available : Mask = λ channel. ltb channel count in
      let desired = desired_mask kill param available in
      let current = and_mask output.enabled_mask available in
      let here : current c ≡ output.enabled_mask c = ground (arith, h) in
      let wide : c < 32 = unfold channel_count in omega (arith, h) in
      let fits : c < dr.len pwm = unfold channel_count in omega (arith, h) in
      let P = Settles laws.is_on c (desired c) in
      let asked = desired_mask-target kill param available c (in_range c count h) in
      subst (λ wanted. Settles laws.is_on c wanted (sync_pwm_output_state dr pwm output kill param))
        asked
        (if_elim P (same_mask u32_bits desired current)
          (λ same.
            let e = same_mask-eq 32 desired current c same wide in (t ∙ sym here ∙ sym e, sym e))
          (λ differ.
            if_elim P (same_mask u32_bits desired available && same_mask u32_bits current no_bits)
              (λ all_off.
                enabled_all-Settles output desired c pwm (dr.enable_all pwm)
                  (λ good.
                    laws.on-enable_all pwm c good fits
                    ∙ sym (
                        same_mask-eq 32 desired available c (both_left _ _ all_off) wide
                        ∙ in_range c count h))
                  (λ bad. failing bad ∙ t))
              (λ some_on.
                if_elim P (same_mask u32_bits desired no_bits)
                  (λ none.
                    let e = same_mask-eq 32 desired no_bits c none wide in
                    (
                      laws.on-flush (dr.disable_all pwm) c ∙ laws.on-disable_all pwm c ∙ sym e,
                      sym e,
                    ))
                  (λ mixed.
                    switch_outputs-Settles dr laws desired current count c
                      (record { pwm = pwm; output = output; applied = current }) h
                      (t ∙ sym here, sym here) refl))))

  -- With the output kill active, whatever the parameter, a call succeeds and switches off each channel
  -- that the driver has and on which the output state agrees with it, in the driver and in the output
  -- state.
  pub kill_switches_off :
      (pwm : D) (output : PwmOutputState) (channel_output_mask : ℤ) (c : ℕ)
      → c < channel_count dr pwm
      → laws.is_on pwm c ≡ output.enabled_mask c
      → let (pwm', output', r) = sync_pwm_output_state dr pwm output true channel_output_mask in
        (laws.is_on pwm' c ≡ false) × (output'.enabled_mask c ≡ false) × (is_ok r ≡ true)
  unfolding sync_pwm_output_state desired_mask
  kill_switches_off pwm output param c h t =
      let available : Mask = λ channel. ltb channel (channel_count dr pwm) in
      let current = and_mask output.enabled_mask available in
      let here : current c ≡ output.enabled_mask c = ground (arith, h) in
      let wide : c < 32 = unfold channel_count in omega (arith, h) in
      let P : Synced D → Type 0 =
        λ r. (laws.is_on r.0 c ≡ false) × (r.1.enabled_mask c ≡ false) × (is_ok r.2 ≡ true) in
      if_elim P (same_mask u32_bits no_bits current)
        (λ same.
          let e = same_mask-eq 32 no_bits current c same wide in
          (t ∙ sym here ∙ sym e, sym e, refl))
        (λ differ.
          if_elim P (same_mask u32_bits no_bits available && same_mask u32_bits current no_bits)
            (λ all_off. absurd (
              cc (
                same_mask_comm 32 no_bits current,
                both_right (same_mask 32 no_bits available) _ all_off,
                differ,
              )))
            (λ some_on.
              if_elim P (same_mask u32_bits no_bits no_bits)
                {x = (dr.flush (dr.disable_all pwm), record { enabled_mask = no_bits }, ok true)}
                {y = switch_outputs dr no_bits current (channel_count dr pwm)
                  (record { pwm = pwm; output = output; applied = current })}
                (λ none.
                  (laws.on-flush (dr.disable_all pwm) c ∙ laws.on-disable_all pwm c, refl, refl))
                (λ mixed. absurd (cc (same_mask_self 32 no_bits, mixed)))))
