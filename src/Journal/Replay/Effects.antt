-- ===== src/Journal/Replay/Effects.antt =====
-- src/journal.rs, `Journal::replay`: what a record says of halts, strands, segments and side effects.
use pulse_cutover.Prelude.{
  ◌==◌, String, Bool, true, false, not, ◌&&◌, ◌||◌, Option, none, some, List, [], ◌∷◌, ◌++◌,
  if◌then◌else◌, is_some, and_then, map_option, or_else, map_or, contains, filter_map,
}
use pulse_cutover.Json.{Json}
use pulse_cutover.Fleet.Reports.{is_true, is_false}
use pulse_cutover.State.{halted, from_str}
use pulse_cutover.Journal.Episodes.{PauseEvent, pause, ack, resume, release, resume_intent}
use pulse_cutover.Journal.Replay.{Entry, Recovered, at, flag_at, text_at, number_at, detail_flag}
use pulse_cutover.Journal.Replay.Transition.{is_state}

-- A text is added to a list that does not have it.
abbrev pub add_new : String → List String → List String
add_new s ss = if contains ss s then ss else ss ++ (s ∷ [])

abbrev pub event_if : Bool → PauseEvent → List PauseEvent
event_if true p = p ∷ []
event_if false p = []

module _ ⦃J : Json⦄ where
  open J use {Value, null, index, get, as_str as str_of, as_u64, as_bool, as_array, is_object}

  unfoldable pub sealed_error : Entry → Bool
  sealed_error e = (e.kind == "error") && detail_flag e "sealed"

  -- An older agent's halt, whose error stands before its transition.
  unfoldable pub seal : Entry → Recovered → Recovered
  seal e r =
      if sealed_error e
      then record r {
        halted_from =
            or_else (and_then (from_str e.state) (λ s. if is_state s halted then none else some s))
              r.halted_from;
        state = some halted;
        reached_ignited = true;
        unhalted = false;
      }
      else r

  unfoldable pub refuses_shadow : Entry → Bool
  refuses_shadow e = flag_at e "shadow_refused" || detail_flag e "shadow_refused"

  unfoldable pub refuse_shadow : Entry → Recovered → Recovered
  refuse_shadow e r = if refuses_shadow e then record r { shadow_refused = true } else r

  unfoldable pub strand : Entry → Recovered → Recovered
  strand e r = record r {
    strand_intent =
        (r.strand_intent
          || (not (e.kind == "transition")
              && (flag_at e "strand_intent" || flag_at e "external_pause_held")))
        && not ((e.kind == "transition") && (e.state == "STRANDED"));
  }

  -- A join that re-enters the ceremony starts a segment of its own.
  unfoldable pub start_segment : Entry → Recovered → Recovered
  start_segment e r = elim (number_at e "segment_start") [
    | none ↦ r
    | some seg ↦ record r {
      writes_closed =
          (r.writes_closed || (is_false r.undo_tracking && is_some r.frozen_ts_ms))
          && not (contains r.rollback_steps_done "on_abort");
      rollback_steps_done = [];
      aborted_rollback_complete = false;
      strand_intent = false;
      segment = seg;
    }
  ]

  abbrev object_at : Entry → String → Option Value
  object_at e key = and_then (at e key) (λ v. if is_object v then some v else none)

  unfoldable pub bind_mainnet : Entry → Recovered → Recovered
  bind_mainnet e r = record r {
    mainnet_event_binding = or_else (object_at e "mainnet_event_verified") r.mainnet_event_binding;
  }

  unfoldable pub take_over : Entry → Recovered → Recovered
  take_over e r = record r {
    legacy_takeover = or_else r.legacy_takeover (
        map_option
          (λ t. (
            is_true (and_then (get t "paused") as_bool),
            is_true (and_then (get t "froze") as_bool),
          ))
          (object_at e "legacy_takeover"));
  }

  unfoldable pub schedule : Entry → Recovered → Recovered
  schedule e r =
      if is_some (number_at e "snapshot_scheduled_at") then record r { scheduled = true } else r

  -- What one record appends to the pause events by its own keys, before its side effect.
  unfoldable pub settled_pauses : Entry → List PauseEvent
  settled_pauses e =
      event_if (is_some (at e "source_pause_ack")) ack
      ++ (event_if (flag_at e "resumed_production_for_snapshot") resume
          ++ event_if (flag_at e "own_pause_released_externally") resume)

  unfoldable pub effect_pauses : Entry → String → List PauseEvent
  effect_pauses e se =
      event_if (se == "source_pause") (pause (not (flag_at e "adopted")))
      ++ (event_if (se == "external_pause_release") (release false)
          ++ event_if (se == "source_resume") resume_intent)

  unfoldable pub settle : Entry → Recovered → Recovered
  unfolding settled_pauses
  settle e r = record r { pause_events = r.pause_events ++ settled_pauses e }

  abbrev pub starts_ignition : String → Bool
  starts_ignition se = (se == "ignite_started") || (se == "ignite")

  abbrev texts : Option Value → List String
  texts v = map_or [] (λ a. filter_map a str_of) (and_then v as_array)

  unfoldable pub apply_effect : Entry → String → Recovered → Recovered
  unfolding effect_pauses
  apply_effect e se r = record r {
    pause_events = r.pause_events ++ effect_pauses e se;
    writes_closed = r.writes_closed || (se == "write_freeze");
    admission_lock_applied = r.admission_lock_applied && not (se == "admission_lock");
    admission_lock =
        if se == "admission_lock"
        then some (texts (at e "original_actor_whitelist"))
        else r.admission_lock;
    side_effects =
        add_new
          (if (se == "source_pause") && flag_at e "adopted" then "source_pause_adopted" else se)
          r.side_effects;
    reached_ignited = r.reached_ignited || starts_ignition se;
  }

  unfoldable pub side_effect : Entry → Recovered → Recovered
  side_effect e r = elim (text_at e "side_effect") [ none ↦ r | some se ↦ apply_effect e se r ]
