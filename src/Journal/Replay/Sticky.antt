-- ===== src/Journal/Replay/Sticky.antt =====
-- src/journal.rs, `Journal::replay`: `reached_ignited` and `shadow_refused` through one record.
use pulse_cutover.Prelude.{
  ◌≡◌, refl, ap, ◌∙◌, Bool, ◌||◌, is_some_and, Bool-cases, Option-cases, inl, inr, arith,
}
use pulse_cutover.Json.{Json}
use pulse_cutover.State.{State}
use pulse_cutover.Journal.Replay.{Entry, Recovered, at, flag_at, text_at, number_at}
use pulse_cutover.Journal.Replay.Transition.{
  past_ignition, reach, halt, enter, bind_arming, freeze, transition,
}
use pulse_cutover.Journal.Replay.Effects.{
  sealed_error, seal, refuses_shadow, refuse_shadow, strand, start_segment, bind_mainnet, take_over,
  schedule, settle, starts_ignition, apply_effect, side_effect,
}
use pulse_cutover.Journal.Replay.Rollback.{
  rollback_flags, rollback_step, rollback_done, clear_halt, stage, fill,
}
use pulse_cutover.Journal.Replay.Lines.{note}

module _ ⦃J : Json⦄ where
  open J use {Value}

  abbrev pub seals : Recovered → Bool × Bool
  seals r = (r.reached_ignited, r.shadow_refused)

  seals-start_segment : (e : Entry) (r : Recovered) → seals (start_segment e r) ≡ seals r
  unfolding start_segment
  seals-start_segment e r = elim (Option-cases (number_at e "segment_start")) [
    | inl k ↦ rw (k, start_segment) refl
    | inr (seg, k) ↦ rw (k, start_segment) refl
  ]

  seals-schedule : (e : Entry) (r : Recovered) → seals (schedule e r) ≡ seals r
  unfolding schedule
  seals-schedule e r = ground arith

  seals-rollback_step : (e : Entry) (r : Recovered) → seals (rollback_step e r) ≡ seals r
  unfolding rollback_step
  seals-rollback_step e r = elim (Option-cases (text_at e "rollback_step")) [
    | inl k ↦ rw (k, rollback_step) refl
    | inr (step, k) ↦ elim (Bool-cases (flag_at e "ok")) [
      | inl f ↦ rw (k, f, rollback_step) refl
      | inr f ↦ rw (k, f, rollback_step) refl
    ]
  ]

  seals-rollback_done : (e : Entry) (r : Recovered) → seals (rollback_done e r) ≡ seals r
  unfolding rollback_done
  seals-rollback_done e r = ground arith

  seals-clear_halt : (e : Entry) (r : Recovered) → seals (clear_halt e r) ≡ seals r
  unfolding clear_halt
  seals-clear_halt e r = ground arith

  seals-stage : (e : Entry) (r : Recovered) → seals (stage e r) ≡ seals r
  unfolding stage
  seals-stage e r = elim (Option-cases (at e "staged_artifact")) [
    | inl k ↦ rw (k, stage) refl
    | inr (a, k) ↦ rw (k, stage) refl
  ]

  -- The record starts ignition by its side effect.
  abbrev pub effect_ignites : Entry → Bool
  effect_ignites e = is_some_and (text_at e "side_effect") starts_ignition

  seals-side_effect :
      (e : Entry) (r : Recovered)
      → seals (side_effect e r) ≡ (r.reached_ignited || effect_ignites e, r.shadow_refused)
  unfolding side_effect apply_effect
  seals-side_effect e r = elim (Option-cases (text_at e "side_effect")) [
    | inl k ↦ rw (k, side_effect) (ground arith)
    | inr (se, k) ↦ rw (k, side_effect) refl
  ]

  seals-seal :
      (e : Entry) (r : Recovered)
      → seals (refuse_shadow e (seal e r))
        ≡ (r.reached_ignited || sealed_error e, r.shadow_refused || refuses_shadow e)
  unfolding refuse_shadow seal
  seals-seal e r = ground arith

  abbrev early : Entry → Recovered → Recovered
  early e r = settle e (
      schedule e
        (take_over e (bind_mainnet e (start_segment e (strand e (refuse_shadow e (seal e r)))))))

  seals-early :
      (e : Entry) (r : Recovered)
      → seals (early e r)
        ≡ (r.reached_ignited || sealed_error e, r.shadow_refused || refuses_shadow e)
  unfolding settle take_over bind_mainnet strand
  seals-early e r =
      seals-schedule e
        (take_over e (bind_mainnet e (start_segment e (strand e (refuse_shadow e (seal e r))))))
      ∙ seals-start_segment e (strand e (refuse_shadow e (seal e r)))
      ∙ seals-seal e r

  abbrev late : Entry → Recovered → Recovered
  late e r =
      fill e (stage e (clear_halt e (rollback_done e (rollback_step e (rollback_flags e r)))))

  seals-late : (e : Entry) (r : Recovered) → seals (late e r) ≡ seals r
  unfolding fill rollback_flags
  seals-late e r =
      seals-stage e (clear_halt e (rollback_done e (rollback_step e (rollback_flags e r))))
      ∙ seals-clear_halt e (rollback_done e (rollback_step e (rollback_flags e r)))
      ∙ seals-rollback_done e (rollback_step e (rollback_flags e r))
      ∙ seals-rollback_step e (rollback_flags e r)

  pub seals-note :
      (e : Entry) (r : Recovered)
      → seals (note e r) ≡ (
        (r.reached_ignited || sealed_error e) || effect_ignites e,
        r.shadow_refused || refuses_shadow e,
      )
  unfolding note
  seals-note e r =
      seals-late e (side_effect e (early e r))
      ∙ seals-side_effect e (early e r)
      ∙ ap (λ (p : Bool × Bool). (p.0 || effect_ignites e, p.1)) (seals-early e r)

  pub seals-transition :
      (st : State) (e : Entry) (r : Recovered)
      → seals (transition st e r) ≡ (r.reached_ignited || past_ignition st, r.shadow_refused)
  unfolding transition freeze bind_arming enter halt reach
  seals-transition st e r = ground arith
