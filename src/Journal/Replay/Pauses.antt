-- ===== src/Journal/Replay/Pauses.antt =====
-- src/journal.rs, `Journal::replay`: the pause events through one record.
use pulse_cutover.Prelude.{
  ◌≡◌, refl, ap, ◌∙◌, ◌==◌, List, [], ◌++◌, sym, Bool-cases, Option-cases, inl, inr, map_or, arith,
  if◌then◌else◌,
}
use mathlib.Core.List.{append-nil, append_assoc}
use pulse_cutover.Json.{Json}
use pulse_cutover.State.{State}
use pulse_cutover.Journal.Episodes.{PauseEvent, resume}
use pulse_cutover.Journal.Replay.{Entry, Recovered, at, flag_at, text_at, number_at}
use pulse_cutover.Journal.Replay.Transition.{reach, halt, enter, bind_arming, freeze, transition}
use pulse_cutover.Journal.Replay.Effects.{
  seal, refuse_shadow, strand, start_segment, bind_mainnet, take_over, schedule, settle,
  settled_pauses, effect_pauses, event_if, apply_effect, side_effect,
}
use pulse_cutover.Journal.Replay.Rollback.{
  rollback_flags, rollback_step, rollback_done, clear_halt, stage, fill,
}
use pulse_cutover.Journal.Replay.Lines.{note}

module _ ⦃J : Json⦄ where
  abbrev effect_part : Entry → List PauseEvent
  effect_part e = map_or [] (λ se. effect_pauses e se) (text_at e "side_effect")

  abbrev step_part : Entry → List PauseEvent
  step_part e =
      map_or [] (λ step. if flag_at e "ok" then event_if (step == "resume") resume else [])
        (text_at e "rollback_step")

  pauses-start_segment :
      (e : Entry) (r : Recovered) → (start_segment e r).pause_events ≡ r.pause_events
  unfolding start_segment
  pauses-start_segment e r = elim (Option-cases (number_at e "segment_start")) [
    | inl k ↦ rw (k, start_segment) refl
    | inr (seg, k) ↦ rw (k, start_segment) refl
  ]

  pauses-stage : (e : Entry) (r : Recovered) → (stage e r).pause_events ≡ r.pause_events
  unfolding stage
  pauses-stage e r = elim (Option-cases (at e "staged_artifact")) [
    | inl k ↦ rw (k, stage) refl
    | inr (a, k) ↦ rw (k, stage) refl
  ]

  pauses-side_effect :
      (e : Entry) (r : Recovered) → (side_effect e r).pause_events ≡ r.pause_events ++ effect_part e
  unfolding side_effect apply_effect
  pauses-side_effect e r = elim (Option-cases (text_at e "side_effect")) [
    | inl k ↦ rw (k, side_effect) (sym (append-nil r.pause_events))
    | inr (se, k) ↦ rw (k, side_effect) refl
  ]

  pauses-rollback_step :
      (e : Entry) (r : Recovered) → (rollback_step e r).pause_events ≡ r.pause_events ++ step_part e
  unfolding rollback_step
  pauses-rollback_step e r = elim (Option-cases (text_at e "rollback_step")) [
    | inl k ↦ rw (k, rollback_step) (sym (append-nil r.pause_events))
    | inr (step, k) ↦ elim (Bool-cases (flag_at e "ok")) [
      | inl f ↦ rw (k, f, rollback_step) refl
      | inr f ↦ rw (k, f, rollback_step) (sym (append-nil r.pause_events))
    ]
  ]

  abbrev early : Entry → Recovered → Recovered
  early e r =
      schedule e
        (take_over e (bind_mainnet e (start_segment e (strand e (refuse_shadow e (seal e r))))))

  pauses-early : (e : Entry) (r : Recovered) → (early e r).pause_events ≡ r.pause_events
  unfolding schedule take_over bind_mainnet strand refuse_shadow seal
  pauses-early e r =
      let sealed = strand e (refuse_shadow e (seal e r)) in
      let first : (early e r).pause_events ≡ (start_segment e sealed).pause_events = ground arith in
      let last : sealed.pause_events ≡ r.pause_events = ground arith in
      first ∙ pauses-start_segment e sealed ∙ last

  abbrev late : Entry → Recovered → Recovered
  late e r = fill e (stage e (clear_halt e (rollback_done e r)))

  pauses-late : (e : Entry) (r : Recovered) → (late e r).pause_events ≡ r.pause_events
  unfolding fill clear_halt rollback_done
  pauses-late e r =
      let last : (clear_halt e (rollback_done e r)).pause_events ≡ r.pause_events = ground arith in
      pauses-stage e (clear_halt e (rollback_done e r)) ∙ last

  -- The pause events that a record adds.
  pub pauses-note :
      (e : Entry) (r : Recovered)
      → (note e r).pause_events
        ≡ r.pause_events ++ (settled_pauses e ++ (effect_part e ++ step_part e))
  unfolding note settle rollback_flags
  pauses-note e r =
      let settled = settle e (early e r) in
      let effected = side_effect e settled in
      pauses-late e (rollback_step e (rollback_flags e effected))
      ∙ pauses-rollback_step e (rollback_flags e effected)
      ∙ ap (λ es. es ++ step_part e)
          (pauses-side_effect e settled
            ∙ ap (λ es. (es ++ settled_pauses e) ++ effect_part e) (pauses-early e r))
      ∙ append_assoc (r.pause_events ++ settled_pauses e) (effect_part e) (step_part e)
      ∙ append_assoc r.pause_events (settled_pauses e) (effect_part e ++ step_part e)

  pub pauses-transition :
      (st : State) (e : Entry) (r : Recovered) → (transition st e r).pause_events ≡ r.pause_events
  unfolding transition freeze bind_arming enter halt reach
  pauses-transition st e r = ground arith
