-- ===== src/Machine/New.antt =====
-- src/machine.rs, `Machine::new`: a machine from what the journal's replay recovered.
use pulse_cutover.Prelude.{
  refl, Bool, true, false, not, ◌&&◌, ◌||◌, Option, none, some, [], is_some, is_none, unwrap_or,
  contains, nat_eq, ℕ, or_else, ltb, if◌then◌else◌,
}
use pulse_cutover.Json.{Json}
use pulse_cutover.State.{
  State, armed, frozen, snapshotted, verified, ignited, flipped, live, aborted, halted, stranded,
}
use pulse_cutover.Fleet.Reports.{is_false}
use pulse_cutover.Journal.Episodes.{pause_episodes}
use pulse_cutover.Journal.Replay.{Recovered}
use pulse_cutover.Machine.Host.{Host}
use pulse_cutover.Machine.Core.{Machine}
use pulse_cutover.Machine.Ownership.{marks, memory, Lawful}
use pulse_cutover.Machine.Ownership.Law.{SoundAt}

-- `matches!(state, Flipped | Live)`.
abbrev has_flipped : State → Bool
has_flipped flipped = true
has_flipped live = true
has_flipped _ = false

-- An older agent that reached one of these has paused the source.
abbrev was_paused : State → Bool
was_paused armed = false
was_paused frozen = false
was_paused aborted = false
was_paused snapshotted = true
was_paused verified = true
was_paused ignited = true
was_paused flipped = true
was_paused live = true
was_paused halted = true
was_paused stranded = true

abbrev was_frozen : State → Bool
was_frozen frozen = true
was_frozen st = was_paused st

module _ ⦃J : Json⦄ ⦃H : Host⦄ where
  abbrev state_of : Recovered → State
  state_of r = unwrap_or r.state armed

  -- `undo_tracking == Some(false)`
  abbrev legacy_undo : Recovered → Bool
  legacy_undo r = is_false r.undo_tracking

  abbrev derived_paused : Recovered → Bool
  derived_paused r = legacy_undo r && (is_some r.head_at_pause || was_paused (state_of r))

  abbrev derived_froze : Recovered → Bool
  derived_froze r =
      legacy_undo r && (nat_eq r.segment 0 && (is_some r.frozen_ts_ms || was_frozen (state_of r)))

  -- The older agent's ownership: as it was taken over, or derived now.
  abbrev legacy_of : Bool → Bool × Bool → Option (Bool × Bool) → Bool × Bool
  legacy_of true derived (some taken) = taken
  legacy_of true derived none = derived
  legacy_of false derived taken = derived

  -- A freeze height of 0 stands for none.
  abbrev configured_h : Option ℕ
  configured_h = if ltb 0 H.cfg.freeze_height then some H.cfg.freeze_height else none

  unfoldable pub new : H.World → Recovered → Machine
  new w r =
      let (legacy_paused, legacy_froze) =
        legacy_of (legacy_undo r) (derived_paused r, derived_froze r) r.legacy_takeover in
      let acks_tracked = not (is_false r.pause_ack_tracking) in
      let eps = pause_episodes r.pause_events legacy_paused acks_tracked in
      let joining = contains r.side_effects "join" in
      record {
        state = state_of r;
        resumed = is_some r.state;
        resolved_h = or_else r.resolved_h configured_h;
        frozen_ts_ms = r.frozen_ts_ms;
        flip_ran = has_flipped (state_of r) || contains r.side_effects "flip_cmd";
        hyperion_flip_ran = has_flipped (state_of r) || contains r.side_effects "hyperion_flip_cmd";
        source_stopped = contains r.side_effects "source_stop_cmd";
        early_abort_armed = none;
        reached_ignited = r.reached_ignited;
        staged_sha256 = r.staged_sha256;
        unhalted = r.unhalted;
        aborted_rollback_complete = r.aborted_rollback_complete;
        rollback_steps_done = r.rollback_steps_done;
        rollback_pending = r.rollback_pending;
        create_chain_started = contains r.side_effects "create_chain" || joining;
        joining = joining;
        head_at_pause = r.head_at_pause;
        armed_shadow = r.armed_shadow;
        paused_by_us = eps.is_ours;
        pause_adopted = eps.is_external;
        strand_intent = r.strand_intent;
        adopted_released = contains r.side_effects "external_pause_release";
        writes_closed_by_us = legacy_froze || r.writes_closed;
        admission_lock = r.admission_lock;
        admission_lock_applied = r.admission_lock_applied;
        admission_lock_losses = [];
        rpc_retry_streaks = 0;
        unpaused_seen = 0;
        tick_deadline = none;
        pause_events = r.pause_events;
        legacy_paused = legacy_paused;
        legacy_froze = legacy_froze;
        legacy_takeover_pending = legacy_undo r && is_none r.legacy_takeover;
        ever_paused_by_us = eps.ever_ours;
        acks_tracked = acks_tracked;
        pause_unknown = eps.is_unknown;
        observed_paused = none;
        shadow_refused = r.shadow_refused;
        shadow_proven = false;
        exit_marks_seen = none;
        fleet_mem = none;
        fleet_mem_state_journaled_ms = 0;
        world = w;
        trace = [];
      }

  -- A machine that starts from a journal is in step with it.
  pub new-Sound : (w : H.World) (r : Recovered) → SoundAt r.pause_events (new w r)
  unfolding new marks memory Lawful
  new-Sound w r = record { derived = refl; recalled = refl; lawful = tt }
