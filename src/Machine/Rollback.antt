-- ===== src/Machine/Rollback.antt =====
-- src/machine.rs, `rollback_steps`: what an abort undoes, step by step. Each step that succeeds is journaled
-- and not done again; writes reopen only into a producing chain, read right before.
pub mod Reverts
pub mod Reopen
use pulse_cutover.Prelude.{
  String, Bool, true, false, not, ◌&&◌, ◌||◌, Option, none, some, List, [], ◌∷◌, map, is_empty,
  if◌then◌else◌, is_some, is_none, is_some_and,
}
use Prim.Native.String.{◌++◌}
use text.Mathlib.Text.{starts_with}
use pulse_cutover.Json.{Json}
use pulse_cutover.State.{aborted}
use pulse_cutover.Machine.Exec.{Exec, pure, gets, modify, ◌>>=◌, ◌>>◌, when, on_option}
use pulse_cutover.Machine.Host.{Host, Record}
use pulse_cutover.Machine.Core.{Machine, Action, evidence, evidence_in, error, enter, is_producer}
use pulse_cutover.Machine.Pause.{resume_ignored, writes_may_reopen}
use pulse_cutover.Machine.Admission.Release.{step_done}
use pulse_cutover.Machine.Strand.{strand, holds}
use pulse_cutover.Machine.Steps.{Progress, add_field}
use pulse_cutover.Machine.Rollback.Reverts.{start, revert_producer, revert_api}
use pulse_cutover.Machine.Rollback.Reopen.{finish}

module _ ⦃J : Json⦄ ⦃H : Host⦄ where
  open J use {Value, text, flag}
  open H use {cfg}

  abbrev seal_message : String → String
  seal_message why =
      "writes were not reopened because the source is not producing (" ++ why
      ++ "); the producer is left as it is. If someone else paused it, resolve that by hand, then "
      ++ "`pulse-cutover rollback --force-stranded --i-understand` resumes it and reopens writes (journaled)"

  -- Writes stay frozen: the intent first, so that a crash completes the strand.
  unfoldable pub seal_writes : String → Value → String → Action Unit
  seal_writes reason detail why = do
    evidence (
        ("strand_intent", flag true)
        ∷ ("writes_kept_frozen", text why)
        ∷ ("reason", text reason)
        ∷ [])
    modify (λ m. record m { strand_intent = true })
    strand reason detail (seal_message why)

  abbrev performed : Bool → Progress Value → Action (Progress Value)
  performed perform p =
      if not perform
      then pure p
      else if is_producer cfg.mode
      then revert_producer p
      else revert_api p

  unfoldable pub reopen_pending : Machine → Bool
  reopen_pending m = is_some cfg.on_abort && (m.writes_closed_by_us && not (step_done "on_abort" m))

  -- A resume that was ignored seals; one that failed stays an incomplete rollback.
  abbrev sealing : Bool → Option String → Option Bool → Bool
  sealing perform resume_error observed =
      perform
      && (is_none resume_error
          || (is_some_and resume_error (λ e. starts_with e resume_ignored) && holds observed))

  unfoldable pub rollback_steps : String → Value → Bool → Bool → Action (List String × List String)
  rollback_steps reason detail perform unstage_any = do
    error reason detail
    done ← gets (λ m. m.rollback_steps_done)
    p ← performed perform (start reason detail perform done)
    pending ← gets reopen_pending
    unknown ← gets (λ m. m.pause_unknown)
    closed ← gets (λ m. m.writes_closed_by_us)
    let froze = perform && (is_producer cfg.mode && closed)
    let must_confirm = perform && (is_producer cfg.mode && (p.resumed_now || (unknown || froze)))
    keep_frozen ←
        if pending || must_confirm then writes_may_reopen (p.resumed_now || froze) else pure none
    observed ← gets (λ m. m.observed_paused)
    on_option (if sealing perform p.resume_error observed then keep_frozen else none)
        (finish perform unstage_any keep_frozen p)
        (λ why. do seal_writes reason detail why; pure ([], p.notes))
