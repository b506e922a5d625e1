-- ===== src/Journal/Replay/Rollback.antt =====
-- src/journal.rs, `Journal::replay`: what a record says of rollbacks, and the slots it fills.
use pulse_cutover.Prelude.{
  ◌==◌, true, not, ◌&&◌, ◌||◌, none, some, ◌++◌, if◌then◌else◌, is_some, and_then, or_else, filter,
  is_some_and,
}
use pulse_cutover.Json.{Json}
use pulse_cutover.State.{aborted}
use pulse_cutover.Journal.Episodes.{resume}
use pulse_cutover.Journal.Replay.{Entry, Recovered, at, flag_at, text_at, number_at}
use pulse_cutover.Journal.Replay.Transition.{is_state}
use pulse_cutover.Journal.Replay.Effects.{add_new, event_if}

module _ ⦃J : Json⦄ where
  open J use {Value, null, index, get, as_str as str_of, as_u64, as_bool, as_array, is_object}

  unfoldable pub rollback_flags : Entry → Recovered → Recovered
  rollback_flags e r = record r {
    rollback_pending =
        (r.rollback_pending || flag_at e "rollback_requested")
        && not (flag_at e "rollback_intent_cancelled");
    aborted_rollback_complete =
        r.aborted_rollback_complete
        && not (is_some (at e "rollback_incomplete"))
        && not (is_some (at e "join_refused_after_refreeze"));
    rollback_steps_done =
        if is_some (at e "join_refused_after_refreeze")
        then filter r.rollback_steps_done (λ x. not (x == "on_abort"))
        else r.rollback_steps_done;
    admission_lock_applied =
        r.admission_lock_applied
        || is_some (at e "admission_lock_ack")
        || flag_at e "admission_lock_reapplied";
  }

  unfoldable pub rollback_step : Entry → Recovered → Recovered
  rollback_step e r = elim (text_at e "rollback_step") [
    | none ↦ r
    | some step ↦
        if flag_at e "ok"
        then record r {
          pause_events = r.pause_events ++ event_if (step == "resume") resume;
          admission_lock = if step == "admission_unlock" then none else r.admission_lock;
          rollback_steps_done = add_new step r.rollback_steps_done;
        }
        else r
  ]

  unfoldable pub rollback_done : Entry → Recovered → Recovered
  rollback_done e r =
      if flag_at e "rollback_done" && is_some_and r.state (λ s. is_state s aborted)
      then record r { aborted_rollback_complete = true }
      else r

  unfoldable pub clear_halt : Entry → Recovered → Recovered
  clear_halt e r =
      if is_some (at e "unhalted_by")
      then record r { unhalted = true; degraded_since_ms = none }
      else r

  unfoldable pub stage : Entry → Recovered → Recovered
  stage e r = elim (at e "staged_artifact") [
    | none ↦ r
    | some a ↦ record r {
      staged_sha256 = and_then (get a "sha256") str_of;
      staged_cut_height = and_then (get a "cut_height") as_u64;
    }
  ]

  -- The slots that the last record with the key fills.
  unfoldable pub fill : Entry → Recovered → Recovered
  fill e r = record r {
    target_blockchain_id = or_else (text_at e "target_blockchain_id") r.target_blockchain_id;
    target_subnet_id = or_else (text_at e "target_subnet_id") r.target_subnet_id;
    accepted_target_chain_id =
        or_else (text_at e "accepted_target_chain_id") r.accepted_target_chain_id;
    boot_manifest_sha256 = or_else (text_at e "boot_manifest_sha256") r.boot_manifest_sha256;
    boot_genesis_sha256 = or_else (text_at e "boot_genesis_sha256") r.boot_genesis_sha256;
    boot_chain_config_sha256 =
        or_else (text_at e "boot_chain_config_sha256") r.boot_chain_config_sha256;
    chain_id = or_else (text_at e "chain_id") r.chain_id;
    cut_block_id = or_else (text_at e "cut_block_id") r.cut_block_id;
    snapshot_file = or_else (text_at e "snapshot_file") r.snapshot_file;
    sha256 = or_else (text_at e "sha256") r.sha256;
    last_source_block_time = or_else (text_at e "last_source_block_time") r.last_source_block_time;
    cut_height = or_else (number_at e "cut_height") r.cut_height;
    degraded_since_ms = or_else r.degraded_since_ms (number_at e "degraded_since_ms");
    head_at_pause = or_else (number_at e "head_at_pause") r.head_at_pause;
    resolved_h = or_else (number_at e "resolved_h") r.resolved_h;
  }
