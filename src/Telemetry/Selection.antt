-- ===== src/Telemetry/Selection.antt =====
-- The stream that crates/veloxity_core/src/comm.rs chooses has the earliest deadline, and is sent.
use veloxity.Base.{
  ℕ, ◌-◌, ◌^◌, ◌≤◌, ◌≡◌, refl, sym, ap, ◌∙◌, subst, false, inl, inr, ◌||◌, List, [], ◌∷◌, Option,
  none, some, Option-cases, ltb, if_elim, arith,
}
use mathlib.Core.List.{Memᴰ}
use mathlib.Core.List.Memᴰ.{head, tail, not-nil}
use veloxity.Telemetry.Streams.{NamedTelemetryStream, SampleTimes}
use veloxity.Telemetry.Scheduler.{CommManager, named_telemetry_stream_deadline}
use veloxity.Telemetry.Send.{
  Selection, is_none, considered, consider, candidates, select_due_named_telemetry_stream,
}
use veloxity.Telemetry.Candidates.{candidate}

module _ (m : CommManager) (now_us : ℕ) (sensors : SampleTimes) where
  abbrev deadline_of : NamedTelemetryStream → Option ℕ
  deadline_of stream = named_telemetry_stream_deadline m stream now_us sensors

  -- The deadline kept is that of the stream selected.
  abbrev Kept : Option NamedTelemetryStream → ℕ → Type 0
  Kept none deadline = Unit {0}
  Kept (some stream) deadline = deadline_of stream ≡ some deadline

  abbrev IsKept : Selection → Type 0
  IsKept sel = Kept sel.selected sel.selected_deadline

  considered-IsKept :
      (sel : Selection) (stream : NamedTelemetryStream) (deadline : Option ℕ)
      → deadline_of stream ≡ deadline
      → IsKept sel
      → IsKept (considered sel stream deadline)
  considered-IsKept sel stream none e kept = kept
  considered-IsKept sel stream (some deadline) e kept =
      if_elim IsKept (is_none sel.selected || ltb deadline sel.selected_deadline) (λ taken. e)
        (λ left. kept)

  consider-IsKept :
      (streams : List NamedTelemetryStream) (sel : Selection)
      → IsKept sel
      → IsKept (consider m now_us sensors sel streams)
  unfolding consider
  consider-IsKept [] sel kept = kept
  consider-IsKept (stream ∷ streams) sel kept =
      consider-IsKept streams (considered sel stream (deadline_of stream))
        (considered-IsKept sel stream (deadline_of stream) refl kept)

  -- A stream is selected, with a deadline that is not later than `deadline`.
  abbrev IsBy : ℕ → Selection → Type 0
  IsBy deadline sel = (is_none sel.selected ≡ false) × (sel.selected_deadline ≤ deadline)

  considered-IsBy :
      (deadline : ℕ) (sel : Selection) (stream : NamedTelemetryStream) (o : Option ℕ)
      → IsBy deadline sel
      → IsBy deadline (considered sel stream o)
  considered-IsBy deadline sel stream none by = by
  considered-IsBy deadline sel stream (some d) (chosen, below) =
      if_elim (IsBy deadline) (is_none sel.selected || ltb d sel.selected_deadline)
        (λ taken. (refl, ground (arith, taken, chosen, below))) (λ left. (chosen, below))

  considered-here :
      (deadline : ℕ) (sel : Selection) (stream : NamedTelemetryStream)
      → IsBy deadline (considered sel stream (some deadline))
  considered-here deadline sel stream =
      if_elim (IsBy deadline) (is_none sel.selected || ltb deadline sel.selected_deadline)
        (λ taken. (refl, omega arith)) (λ left. (ground (arith, left), ground (arith, left)))

  consider-IsBy :
      (deadline : ℕ) (streams : List NamedTelemetryStream) (sel : Selection)
      → IsBy deadline sel
      → IsBy deadline (consider m now_us sensors sel streams)
  unfolding consider
  consider-IsBy deadline [] sel by = by
  consider-IsBy deadline (stream ∷ streams) sel by =
      consider-IsBy deadline streams (considered sel stream (deadline_of stream))
        (considered-IsBy deadline sel stream (deadline_of stream) by)

  consider-earliest :
      (stream : NamedTelemetryStream) (deadline : ℕ) (streams : List NamedTelemetryStream)
      (sel : Selection)
      → Memᴰ stream streams
      → deadline_of stream ≡ some deadline
      → IsBy deadline (consider m now_us sensors sel streams)
  unfolding consider
  consider-earliest stream deadline [] sel member h = absurd (not-nil member)
  consider-earliest stream deadline (s ∷ streams) sel (head same) h =
      consider-IsBy deadline streams (considered sel s (deadline_of s)) (
        subst (λ o. IsBy deadline (considered sel s o)) (sym h ∙ ap deadline_of same)
          (considered-here deadline sel s))
  consider-earliest stream deadline (s ∷ streams) sel (tail later) h =
      consider-earliest stream deadline streams (considered sel s (deadline_of s)) later h

module _ (m : CommManager) (now_us : ℕ) (sensors : SampleTimes) where
  -- Whenever a stream has a deadline, the stream that is chosen has one that is not later.
  pub chooses_earliest :
      (stream : NamedTelemetryStream) (deadline : ℕ)
      → named_telemetry_stream_deadline m stream now_us sensors ≡ some deadline
      → (chosen : NamedTelemetryStream) × (earliest : ℕ) × (select_due_named_telemetry_stream m
            now_us sensors
          ≡ some chosen)
        × (named_telemetry_stream_deadline m chosen now_us sensors ≡ some earliest)
        × (earliest ≤ deadline)
  unfolding select_due_named_telemetry_stream
  chooses_earliest stream deadline h =
      let none_yet : Selection = record { selected = none; selected_deadline = 2 ^ 64 - 1 } in
      let sel = consider m now_us sensors none_yet (candidates sensors) in
      let kept = consider-IsKept m now_us sensors (candidates sensors) none_yet tt in
      let (some_chosen, below) =
        consider-earliest m now_us sensors stream deadline (candidates sensors) none_yet
          (candidate m now_us sensors stream deadline h) h in
      elim (Option-cases sel.selected) [
        | inl e ↦ absurd (cc (ap is_none e, some_chosen))
        | inr (chosen, e) ↦ (
          chosen,
          sel.selected_deadline,
          e,
          subst (λ o. Kept m now_us sensors o sel.selected_deadline) e kept,
          below,
        )
      ]

  pub chosen-deadline :
      (chosen : NamedTelemetryStream)
      → select_due_named_telemetry_stream m now_us sensors ≡ some chosen
      → (d : ℕ) × (named_telemetry_stream_deadline m chosen now_us sensors ≡ some d)
  unfolding select_due_named_telemetry_stream
  chosen-deadline chosen e =
      let none_yet : Selection = record { selected = none; selected_deadline = 2 ^ 64 - 1 } in
      let sel = consider m now_us sensors none_yet (candidates sensors) in
      let kept = consider-IsKept m now_us sensors (candidates sensors) none_yet tt in
      (sel.selected_deadline, subst (λ o. Kept m now_us sensors o sel.selected_deadline) e kept)
