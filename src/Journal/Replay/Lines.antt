-- ===== src/Journal/Replay/Lines.antt =====
-- src/journal.rs, `Journal::replay`: one record, and the lines of the file.
use pulse_cutover.Prelude.{
  ◌==◌, String, Bool, true, not, ◌&&◌, ◌||◌, none, some, List, [], ◌∷◌, if◌then◌else◌, is_empty,
}
use pulse_cutover.Json.{Json}
use pulse_cutover.State.{from_str}
use pulse_cutover.Journal.Replay.{
  Replayed, read, refused, corrupt_line, unknown_kind, unknown_state, Entry, Line, blank, torn,
  entry, Recovered, default_recovered,
}
use pulse_cutover.Journal.Replay.Transition.{transition}
use pulse_cutover.Journal.Replay.Effects.{
  seal, refuse_shadow, strand, start_segment, bind_mainnet, take_over, schedule, settle,
  side_effect,
}
use pulse_cutover.Journal.Replay.Rollback.{
  rollback_flags, rollback_step, rollback_done, clear_halt, stage, fill,
}

module _ ⦃J : Json⦄ where
  open J use {Value, null, index, get, as_str as str_of, as_u64, as_bool, as_array, is_object}

  -- One record after its transition, in the code's order.
  unfoldable pub note : Entry → Recovered → Recovered
  note e r = fill e (
      stage e (
        clear_halt e (
          rollback_done e (
            rollback_step e (
              rollback_flags e (
                side_effect e (
                  settle e (
                    schedule e (
                      take_over e (
                        bind_mainnet e
                          (start_segment e (strand e (refuse_shadow e (seal e r))))))))))))))

  abbrev pub known_kind : String → Bool
  known_kind k = (k == "transition") || (k == "evidence") || (k == "error")

  unfoldable pub apply : Entry → Recovered → Replayed Recovered
  apply e r =
      if not (known_kind e.kind)
      then refused (unknown_kind e.kind)
      else if e.kind == "transition"
      then elim (from_str e.state) [
        | none ↦ refused (unknown_state e.state)
        | some st ↦ read (note e (transition st e r))
      ]
      else read (note e r)

  abbrev pub then_replay :
      Replayed Recovered → (Recovered → Replayed Recovered) → Replayed Recovered
  then_replay (read r) next = next r
  then_replay (refused e) next = refused e

  -- The file's lines in order; a line that is no record is a torn write only as the last one, of a file
  -- that does not end with a newline.
  unfoldable pub replay_lines : Bool → List Line → Recovered → Replayed Recovered
  replay_lines ends_with_newline [] r = read r
  replay_lines ends_with_newline (blank ∷ ls) r = replay_lines ends_with_newline ls r
  replay_lines ends_with_newline (entry e ∷ ls) r =
      then_replay (apply e r) (replay_lines ends_with_newline ls)
  replay_lines ends_with_newline (torn ∷ ls) r =
      let rest = replay_lines ends_with_newline ls (record r { torn_tail = true }) in
      if is_empty ls && not ends_with_newline then rest else refused corrupt_line

  unfoldable pub replay : Bool → List Line → Replayed Recovered
  unfolding replay_lines
  replay ends_with_newline ls = replay_lines ends_with_newline ls default_recovered
