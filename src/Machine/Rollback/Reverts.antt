-- ===== src/Machine/Rollback/Reverts.antt =====
-- src/machine.rs, `rollback_steps`: the reverts, of a producer and of an API node.
use pulse_cutover.Prelude.{
  String, Bool, true, false, not, ◌&&◌, Option, none, some, List, [], ◌∷◌, ◌++◌, is_empty,
  if◌then◌else◌, and_then, map_or,
}
use pulse_cutover.Json.{Json}
use pulse_cutover.Journal.Episodes.{resume}
use pulse_cutover.Machine.Exec.{pure, gets, modify, attempt, ◌>>=◌, ◌>>◌, on_result, on_option}
use pulse_cutover.Machine.Host.{Host, Record}
use pulse_cutover.Machine.Core.{Action, evidence, current_episode, push_pause_event}
use pulse_cutover.Machine.Pause.{src_resume}
use pulse_cutover.Machine.Admission.{texts}
use pulse_cutover.Machine.Admission.Release.{step_done, add_step}
use pulse_cutover.Machine.Steps.{
  Field, key, Progress, add_failed, add_field, resume_failure, revert,
}

module _ ⦃J : Json⦄ ⦃H : Host⦄ where
  open J use {Value, text, flag, number, get}
  open H use {cfg}

  -- A key of the detail that the record repeats.
  abbrev copied : Value → Field → List (Field × Value)
  copied detail f = map_or [] (λ v. (f, v) ∷ []) (get detail (key f))

  abbrev already : List String → List (Field × Value)
  already done = if is_empty done then [] else (Field.steps_already_done, texts done) ∷ []

  abbrev pub start : String → Value → Bool → List String → Progress Value
  start reason detail perform done = record {
    failed = [];
    notes = [];
    fields =
        (Field.reason, text reason)
        ∷ (Field.auto_rollback, flag cfg.auto_rollback)
        ∷ (Field.rollback_performed, flag perform)
        ∷ (copied detail Field.by
            ++ (copied detail Field.force_after_ignite
                ++ (copied detail Field.ignition_started ++ already done)));
    resumed_now = false;
    resume_error = none;
  }

  abbrev pub step_record : Value → Record
  step_record episode =
      ("rollback_step", text "resume") ∷ ("ok", flag true) ∷ ("episode", episode) ∷ []

  -- The record of the resume, the step, and the end of the episode in the memory.
  unfoldable pub close_episode : Value → Action Unit
  close_episode episode = do
    evidence (step_record episode)
    modify (add_step "resume")
    push_pause_event resume

  abbrev with_error : String → Progress Value → Progress Value
  with_error e p =
      add_field Field.source_producer_resume_error (text e)
        (record (add_failed (resume_failure e) p) { resume_error = some e })

  unfoldable pub resume_own_pause : Progress Value → Action (Progress Value)
  resume_own_pause p = do
    episode ← gets current_episode
    r ← attempt (src_resume "rollback")
    on_result r
        (λ _. do
          close_episode (number episode)
          pure (
              add_field Field.source_producer_resumed (flag true)
                (record p { resumed_now = true })))
        (λ e. pure (with_error e p))

  abbrev unresumed : Bool → Bool → Value
  unresumed done unknown =
      if done
      then text "earlier (journaled)"
      else if unknown
      then text
          "ownership of the current pause is unknown (a pause or resume of this ceremony was interrupted before its outcome was journaled): not resumed"
      else text "not paused by this ceremony: nothing to resume"

  -- Only a pause whose latest open episode is this ceremony's own is resumed.
  unfoldable pub revert_producer : Progress Value → Action (Progress Value)
  revert_producer p = do
    ours ← gets (λ m. m.paused_by_us)
    if ours then resume_own_pause p else do
      done ← gets (step_done "resume")
      unknown ← gets (λ m. m.pause_unknown)
      pure (add_field Field.source_producer_resumed (unresumed done unknown) p)

  unfoldable pub restart_source : Progress Value → Action (Progress Value)
  restart_source p =
      on_option cfg.start_cmd
        (pure (
          add_field Field.source_stopped_no_start_cmd (flag true) (
            add_failed
              "the source was stopped and no source.start_cmd is configured: restart it by hand"
              p)))
        (λ cmd.
          revert "source_restart" Field.source_restarted Field.source_restart_error
            "restart the source" (some cmd) p)

  abbrev revert_cmd : Option (Option String) → Option String
  revert_cmd o = and_then o (λ cmd. cmd)

  unfoldable pub revert_api : Progress Value → Action (Progress Value)
  revert_api p = do
    stopped ← gets (λ m. m.source_stopped)
    restarted ← gets (step_done "source_restart")
    p1 ← if stopped && not restarted then restart_source p else pure p
    ran ← gets (λ m. m.hyperion_flip_ran)
    reverted ← gets (step_done "hyperion_revert")
    p2 ←
        if ran && not reverted
        then revert "hyperion_revert" Field.hyperion_flip_reverted Field.hyperion_flip_revert_error
            "revert the /v2 flip" (revert_cmd cfg.hyperion) p1
        else pure p1
    flipped ← gets (λ m. m.flip_ran)
    unflipped ← gets (step_done "flip_revert")
    p3 ←
        if flipped && not unflipped
        then revert "flip_revert" Field.flip_reverted Field.flip_revert_error
            "revert the public flip" (revert_cmd cfg.flip) p2
        else pure p2
    untouched ← gets (λ m. not m.source_stopped)
    pure (add_field Field.source_chain_untouched (flag untouched) p3)
