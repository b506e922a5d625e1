-- ===== src/Journal/Replay/Transition.antt =====
-- src/journal.rs, `Journal::replay`: what a transition record leaves.
use pulse_cutover.Prelude.{
  ◌==◌, Bool, true, false, not, ◌&&◌, ◌||◌, some, [], if◌then◌else◌, is_some, and_then, or_else,
  unwrap_or,
}
use pulse_cutover.Json.{Json}
use pulse_cutover.State.{
  State, armed, frozen, ignited, flipped, live, aborted, halted, stranded, from_str, as_str,
}
use pulse_cutover.Journal.Replay.{Entry, Recovered, at, flag_at, text_at}

-- `matches!(st, Ignited | Flipped | Live | Halted)`.
abbrev pub past_ignition : State → Bool
past_ignition ignited = true
past_ignition flipped = true
past_ignition live = true
past_ignition halted = true
past_ignition _ = false

abbrev pub is_state : State → State → Bool
unfolding as_str
is_state a b = as_str a == as_str b

module _ ⦃J : Json⦄ where
  open J use {Value, null, index, get, as_str as str_of, as_u64, as_bool, as_array, is_object}

  unfoldable pub reach : State → Recovered → Recovered
  reach st r = if past_ignition st then record r { reached_ignited = true } else r

  unfoldable pub halt : State → Entry → Recovered → Recovered
  halt st e r =
      if is_state st halted
      then record r { unhalted = false; halted_from = and_then (text_at e "halted_from") from_str }
      else r

  unfoldable pub enter : State → Recovered → Recovered
  enter st r = record r {
    aborted_rollback_complete = false;
    rollback_pending = r.rollback_pending && not (is_state st aborted || is_state st stranded);
    rollback_steps_done = if is_state st aborted then r.rollback_steps_done else [];
    state = some st;
  }

  -- The arming record carries "mode"; the first one binds.
  unfoldable pub bind_arming : State → Entry → Recovered → Recovered
  bind_arming st e r =
      if is_state st armed && is_some (at e "mode")
      then record r {
        armed_shadow = or_else r.armed_shadow (some (unwrap_or (at e "shadow") null));
        undo_tracking = or_else r.undo_tracking (some (flag_at e "undo_tracking"));
        pause_ack_tracking = or_else r.pause_ack_tracking (some (flag_at e "pause_ack"));
      }
      else r

  unfoldable pub freeze : State → Entry → Recovered → Recovered
  freeze st e r = if is_state st frozen then record r { frozen_ts_ms = some e.ts_ms } else r

  unfoldable pub transition : State → Entry → Recovered → Recovered
  transition st e r = freeze st e (bind_arming st e (enter st (halt st e (reach st r))))
