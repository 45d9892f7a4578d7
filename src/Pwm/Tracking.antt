-- ===== src/Pwm/Tracking.antt =====
-- What the driver's channels are after `sync_pwm_output_state` of
-- crates/veloxity_core/src/pwm/output_sync.rs.
use veloxity.Base.{
  ℕ, zero, suc, ◌+◌, ◌<◌, ◌≡◌, refl, sym, ◌∙◌, subst, inl, inr, Bool, true, false, Bool-cases, ◌&&◌,
  ltb, leb, ◌==◌, if◌then◌else◌, arith,
}
use veloxity.Pwm.Driver.{Result, ok, err, is_ok, PwmDriver, IsDriver}
use veloxity.Pwm.Sync.{
  Mask, and_not_mask, same_mask, any_bit, u32_bits, Syncing, switched, continue, switch_channels,
  Synced, finished, flushed, switch_outputs,
}

pub same_mask-eq : (n : ℕ) (a b : Mask) (c : ℕ) → same_mask n a b ≡ true → c < n → a c ≡ b c
unfolding same_mask
same_mask-eq zero a b c h l = absurd (omega arith)
same_mask-eq (suc n) a b c h l = elim (Bool-cases (c == n)) [
  | inl here ↦ let e : c ≡ n = ground (arith, here) in rw e (ground (arith, h))
  | inr other ↦ same_mask-eq n a b c (ground (arith, h)) (ground (arith, other))
]

module _ {D : Type 0} (is_on : D → ℕ → Bool) where
  -- Whether the driver and the output state agree with the applied mask on channel `c`.
  abbrev pub Agrees : ℕ → Syncing D → Type 0
  Agrees c s = (is_on s.pwm c ≡ s.applied c) × (s.output.enabled_mask c ≡ s.applied c)

  -- The same of the state after some channels, with the applied mask that a success leaves.
  abbrev Reached : ℕ → Bool → Syncing D × Result (Unit {0}) → Type 0
  Reached c v (s, ok _) = Agrees c s × (s.applied c ≡ v)
  Reached c v (s, err e) = Agrees c s

  continue-Reached :
      (c : ℕ) (v w : Bool) (rest : Syncing D → Syncing D × Result (Unit {0}))
      (r : Syncing D × Result (Unit {0}))
      → Reached c v r
      → ((s : Syncing D) → Agrees c s → s.applied c ≡ v → Reached c w (rest s))
      → Reached c w (continue rest r)
  continue-Reached c v w rest (s, ok _) (a, e) next = next s a e
  continue-Reached c v w rest (s, err e) a next = a

module _ {D : Type 0} (is_on : D → ℕ → Bool) (call : D → ℕ → D × Result (Unit {0})) (value : Bool)
    (law : (d : D) (channel c : ℕ)
      → is_on (call d channel).0 c
        ≡ (if is_ok (call d channel).1 && channel == c then value else is_on d c)) where
  abbrev LawAt : ℕ → ℕ → Syncing D → D × Result (Unit {0}) → Type 0
  LawAt c channel s r = is_on r.0 c ≡ (if is_ok r.1 && channel == c then value else is_on s.pwm c)

  switched-Reached :
      (c channel : ℕ) (s : Syncing D) (r : D × Result (Unit {0}))
      → LawAt c channel s r
      → Agrees is_on c s
      → Reached is_on c (if channel == c then value else s.applied c) (switched s channel value r)
  switched-Reached c channel s (pwm, ok _) l a = ground arith
  switched-Reached c channel s (pwm, err e) l a = ground arith

  turn-Reached :
      (mask : Mask) (c channel : ℕ) (s : Syncing D)
      → Agrees is_on c s
      → Reached is_on c
          (if channel == c && mask c then value else s.applied c)
          (if mask channel then switched s channel value (call s.pwm channel) else (s, ok tt))
  turn-Reached mask c channel s a = elim (Bool-cases (mask channel)) [
    | inl set ↦ rw set (
        subst (λ v. Reached is_on c v (switched s channel value (call s.pwm channel)))
          (ground (arith, set))
          (switched-Reached c channel s (call s.pwm channel) (law s.pwm channel c) a))
    | inr clear ↦ rw clear (a, ground (arith, clear))
  ]

  switch_channels-Reached :
      (mask : Mask) (c rounds channel : ℕ) (s : Syncing D)
      → Agrees is_on c s
      → Reached is_on c
          (if leb channel c && (ltb c (channel + rounds) && mask c) then value else s.applied c)
          (switch_channels call value mask rounds channel s)
  unfolding switch_channels
  switch_channels-Reached mask c zero channel s a = (a, ground arith)
  switch_channels-Reached mask c (suc rounds) channel s a =
      continue-Reached is_on c _ _ (switch_channels call value mask rounds (suc channel))
        (if mask channel then switched s channel value (call s.pwm channel) else (s, ok tt))
        (turn-Reached mask c channel s a)
        (λ s' a' e.
          subst (λ v. Reached is_on c v (switch_channels call value mask rounds (suc channel) s'))
            (ground (arith, e)) (switch_channels-Reached mask c rounds (suc channel) s' a'))

-- What channel `c` is after a call that is to make it `v`: after an error the driver and the output
-- state agree on it.
abbrev pub Settles : {D : Type 0} → (D → ℕ → Bool) → ℕ → Bool → Synced D → Type 0
Settles is_on c v (pwm, output, ok _) = (is_on pwm c ≡ v) × (output.enabled_mask c ≡ v)
Settles is_on c v (pwm, output, err e) = is_on pwm c ≡ output.enabled_mask c

module _ {R D : Type 0} (dr : PwmDriver R D) (laws : IsDriver dr) where
  finished-Settles :
      (c : ℕ) (v : Bool) (r : Syncing D × Result (Unit {0}))
      → Reached laws.is_on c v r
      → Settles laws.is_on c v (finished r)
  finished-Settles c v (s, ok _) ((on, out), e) = (on ∙ e, out ∙ e)
  finished-Settles c v (s, err e) (on, out) = on ∙ sym out

  flushed-Agrees :
      (flushing : Bool) (c : ℕ) (s : Syncing D)
      → Agrees laws.is_on c s
      → Agrees laws.is_on c (flushed dr flushing s)
        × ((flushed dr flushing s).applied c ≡ s.applied c)
  flushed-Agrees true c s (on, out) = ((laws.on-flush s.pwm c ∙ on, out), refl)
  flushed-Agrees false c s a = (a, refl)

  pub switch_outputs-Settles :
      (desired current : Mask) (count c : ℕ) (s : Syncing D)
      → c < count
      → Agrees laws.is_on c s
      → s.applied c ≡ current c
      → Settles laws.is_on c (desired c) (switch_outputs dr desired current count s)
  unfolding switch_outputs
  switch_outputs-Settles desired current count c s h a e =
      let disable_mask = and_not_mask current desired in
      let enable_mask = and_not_mask desired current in
      let flushing = any_bit u32_bits disable_mask in
      let rest : Syncing D → Syncing D × Result (Unit {0}) =
        λ s'. switch_channels dr.enable true enable_mask count 0 (flushed dr flushing s') in
      let disabled = switch_channels dr.disable false disable_mask count 0 s in
      let v = (if leb 0 c && (ltb c (0 + count) && disable_mask c) then false else s.applied c) in
      finished-Settles c (desired c) (continue rest disabled) (
        continue-Reached laws.is_on c v (desired c) rest disabled
          (switch_channels-Reached laws.is_on dr.disable false laws.on-disable disable_mask c count
            0 s a)
          (λ s' a' e'.
            let (kept, same) = flushed-Agrees flushing c s' a' in
            subst (λ v. Reached laws.is_on c v (rest s')) (ground (arith, e', same, e, h))
              (switch_channels-Reached laws.is_on dr.enable true laws.on-enable enable_mask c count
                0 (flushed dr flushing s') kept)))
