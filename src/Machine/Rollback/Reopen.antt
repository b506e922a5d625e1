-- ===== src/Machine/Rollback/Reopen.antt =====
-- src/machine.rs, `rollback_steps`: from the ABORTED record on: the reopening of writes and of the producer's
-- admission, and the record that the rollback is complete.
use pulse_cutover.Prelude.{
  String, Bool, true, false, not, ◌&&◌, ◌||◌, Option, none, List, [], ◌∷◌, is_empty, if◌then◌else◌,
  is_some, is_none,
}
use Prim.Native.String.{◌++◌}
use pulse_cutover.Json.{Json}
use pulse_cutover.State.{aborted}
use pulse_cutover.Machine.Exec.{
  Result, ok, err, pure, gets, modify, attempt, ◌>>=◌, ◌>>◌, when, on_result, on_option,
}
use pulse_cutover.Machine.Host.{Host, Record}
use pulse_cutover.Machine.Core.{Machine, Action, evidence_in, enter, is_producer}
use pulse_cutover.Machine.Halt.{hook, hook_result}
use pulse_cutover.Machine.Reads.{is_ok_false, read_paused}
use pulse_cutover.Machine.Admission.{texts}
use pulse_cutover.Machine.Admission.Release.{step_done, release_admission}
use pulse_cutover.Machine.Steps.{
  Field, record_of, Progress, add_failed, add_field, mark_step, unstage,
}

module _ ⦃J : Json⦄ ⦃H : Host⦄ where
  open J use {Value, text, flag}
  open H use {cfg}

  abbrev incomplete : List String → Record
  incomplete failed = ("rollback_incomplete", texts failed) ∷ ("rollback_complete", flag false) ∷ []

  abbrev complete : Record
  complete = ("rollback_done", flag true) ∷ ("rollback_complete", flag true) ∷ []

  unfoldable pub nothing_to_undo : Machine → Bool
  nothing_to_undo m =
      not m.ever_paused_by_us && (not m.writes_closed_by_us && is_none m.admission_lock)

  -- Complete only when no step failed.
  unfoldable pub conclude : Bool → Bool → Progress Value → Action (List String × List String)
  conclude perform unstage_any p = do
    q ← unstage unstage_any p
    nothing ← gets nothing_to_undo
    when nothing (evidence_in aborted (("nothing_to_undo", flag true) ∷ []))
    if is_empty q.failed
        then when (perform || nothing) (
            evidence_in aborted complete
            >> modify (λ m. record m { aborted_rollback_complete = true }))
        else evidence_in aborted (incomplete q.failed)
    pure (q.failed, q.notes)

  abbrev pub read_problem : Result Bool → String
  read_problem (ok held) = "producer paused"
  read_problem (err e) = "producer state unknown (" ++ e ++ ")"

  unfoldable pub withhold : String → Bool → Progress Value → Action (List String × List String)
  withhold why unstage_any p = do
    evidence_in aborted (("on_abort_withheld", text why) ∷ [])
    let failure =
        "on_abort withheld: " ++ why ++ " right before reopening writes; re-run "
        ++ "`pulse-cutover rollback` once the producer produces (or release a pause someone else made with "
        ++ "--force-stranded --i-understand)"
    q ← unstage unstage_any (add_failed failure p)
    evidence_in aborted (incomplete q.failed)
    pure (q.failed, q.notes)

  -- The admission first, then the writes.
  unfoldable pub reopen : Bool → Option String → Progress Value → Action (Progress Value)
  reopen unlock_pending reopen_hook p = do
    unlocked ← if unlock_pending then attempt release_admission else pure (ok tt)
    q ←
        on_result unlocked (λ _. pure p)
          λ e.
            pure (
              add_failed ("restore the producer's transaction admission (actor whitelist): " ++ e)
                p)
    on_option reopen_hook (pure q) λ cmd. do
      result ← attempt (hook cmd)
      evidence_in aborted (("on_abort_hook", hook_result result) ∷ [])
      on_result result (λ _. do mark_step "on_abort"; pure q)
          (λ e. pure (add_failed ("on_abort hook: " ++ e) q))

  -- Writes reopen only after a fresh read that shows the producer producing.
  unfoldable pub reopen_checked :
      Bool → Bool → Bool → Option String → Progress Value → Action (List String × List String)
  reopen_checked perform unstage_any unlock_pending reopen_hook p =
      if not (is_producer cfg.mode)
      then reopen unlock_pending reopen_hook p >>= conclude perform unstage_any
      else do
        last ← attempt read_paused
        if is_ok_false last
            then reopen unlock_pending reopen_hook p >>= conclude perform unstage_any
            else withhold (read_problem last) unstage_any p

  abbrev if_some : Bool → Option String → Option String
  if_some b o = if b then o else none

  unfoldable pub finish :
      Bool → Bool → Option String → Progress Value → Action (List String × List String)
  finish perform unstage_any keep_frozen p = do
    let reverted = add_field Field.reverts_ok (flag (perform && is_empty p.failed)) p
    enter aborted (record_of reverted.fields)
    let source_back = is_none keep_frozen && (not (is_producer cfg.mode) || is_none p.resume_error)
    closed ← gets (λ m. m.writes_closed_by_us)
    done ← gets (step_done "on_abort")
    when (is_some cfg.on_abort && (not closed && not done)) (
        evidence_in aborted (
          ("on_abort_skipped", text "writes were not closed by this ceremony: nothing to reopen")
          ∷ []))
    when (is_some cfg.on_abort && (not source_back && not done)) (
        evidence_in aborted (
          (
            "on_abort_deferred",
            text
                "the source producer was not resumed: writes stay frozen until `pulse-cutover rollback`",
          )
          ∷ []))
    let reopen_hook = if_some (source_back && (closed && not done)) cfg.on_abort
    locked ← gets (λ m. is_some m.admission_lock)
    unlocked ← gets (step_done "admission_unlock")
    let unlock_pending = source_back && (is_producer cfg.mode && (locked && not unlocked))
    if is_some reopen_hook || unlock_pending
        then reopen_checked perform unstage_any unlock_pending reopen_hook p
        else conclude perform unstage_any p
