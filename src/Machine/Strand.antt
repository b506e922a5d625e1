-- ===== src/Machine/Strand.antt =====
-- src/machine.rs: STRANDED, the seal before the point of no return: the source paused, writes frozen,
-- nothing rolled back.
use pulse_cutover.Prelude.{
  ℕ, String, Bool, true, false, not, ◌&&◌, ◌||◌, Option, none, some, [], ◌∷◌, if◌then◌else◌, ltb,
}
use Prim.Native.String.{◌++◌}
use pulse_cutover.Prelude.Decimal.{show_u64}
use pulse_cutover.Json.{Json}
use pulse_cutover.State.{State, stranded, as_str}
use pulse_cutover.Machine.Exec.{
  Result, ok, err, pure, gets, modify, attempt, ◌>>=◌, ◌>>◌, when, on_result, on_option,
}
use pulse_cutover.Machine.Host.{Host, Record}
use pulse_cutover.Machine.Core.{Action, ask, evidence, error, enter, is_producer}
use pulse_cutover.Machine.Halt.{page}
use pulse_cutover.Machine.Reads.{is_ok_true, read_paused}
use pulse_cutover.Machine.Pause.{src_pause}
use pulse_cutover.Machine.Admission.{to_option}
use pulse_cutover.Machine.Admission.Recheck.{check_admission_lock}

abbrev pub is_stranded : State → Bool
is_stranded stranded = true
is_stranded _ = false

abbrev pub show_read : Result Bool → String
show_read (ok true) = "Ok(true)"
show_read (ok false) = "Ok(false)"
show_read (err e) = "Err(" ++ e ++ ")"

module _ ⦃J : Json⦄ ⦃H : Host⦄ where
  open J use {Value, text, flag, number}
  open H use {cfg}

  -- A stranded source keeps its lock on: a failure is journaled and not fatal.
  unfoldable pub relock_stranded : Action Unit
  relock_stranded = do
    r ← attempt (check_admission_lock "stranded" none true)
    on_result r (λ _. pure tt) λ e. evidence (("admission_lock_check_failed", text e) ∷ [])

  abbrev enforced : Bool → String → Record
  enforced done result = ("source_pause_enforced", flag done) ∷ ("result", text result) ∷ []

  -- Whether the source is confirmed paused, pausing it if it is not.
  unfoldable pub ensure_source_paused : Action Bool
  ensure_source_paused = if not (is_producer cfg.mode) then pure true else do
    seen ← attempt read_paused
    st ← gets (λ m. m.state)
    if is_ok_true seen
        then when (is_stranded st) (evidence (enforced true "already paused"))
          >> relock_stranded
          >> pure true
        else do
          r ← attempt (src_pause >> read_paused)
          evidence (enforced (is_ok_true r) (show_read r))
          relock_stranded
          pure (is_ok_true r)

  abbrev moved_past : ℕ → ℕ → String
  moved_past head at_pause =
      "the source head moved past the pause head ("
      ++ show_u64 head
      ++ " > "
      ++ show_u64 at_pause
      ++ ")"

  abbrev head_problem : ℕ → Result ℕ → Option String
  head_problem at_pause (ok head) =
      if ltb at_pause head then some (moved_past head at_pause) else none
  head_problem at_pause (err e) = some ("cannot read the source head (" ++ e ++ ")")

  -- Before chain creation and ignition: paused, and the head where the cut was audited.
  unfoldable pub source_sealed_problem : Action (Option String)
  source_sealed_problem = do
    joining ← gets (λ m. m.joining)
    if not (is_producer cfg.mode) || joining then pure none else do
      read ← attempt read_paused
      on_result read
          (λ held. if not held then pure (some "the source producer is not paused") else do
            at_pause ← gets (λ m. m.head_at_pause)
            on_option at_pause
                (pure (some "no journaled pause head (the cut was not audited by this journal)"))
                λ paused. do head ← attempt (ask H.source_head); pure (head_problem paused head))
          (λ e. pure (some ("cannot confirm the source producer is paused (" ++ e ++ ")")))

  -- The abort path's own observation, or a read now.
  unfoldable pub observe_paused : Action (Option Bool)
  observe_paused = do
    seen ← gets (λ m. m.observed_paused)
    modify (λ m. record m { observed_paused = none })
    on_option seen
        (if is_producer cfg.mode
          then (do r ← attempt read_paused; pure (to_option r))
          else pure none)
        (λ v. pure (some v))

  abbrev strand_message : Bool → Bool → String → String → String
  strand_message kept source_paused reason why =
      if kept
      then "STRANDED: " ++ reason ++ "; " ++ why
      else if source_paused
      then "STRANDED: " ++ reason ++ "; peers may have ignited (" ++ why
        ++ "): refusing to resume the source"
      else "STRANDED but UNSEALED: " ++ reason ++ "; peers may have ignited (" ++ why
        ++ "); the source producer could NOT be confirmed paused: pause it by hand now"

  abbrev pub holds : Option Bool → Bool
  holds (some b) = b
  holds none = false

  abbrev strand_record : State → String → Value → String → Bool → Bool → Bool → Record
  strand_record from reason detail why kept source_paused external =
      ("stranded_from", text (as_str from))
      ∷ ("reason", text reason)
      ∷ ("detail", detail)
      ∷ ("message", text (strand_message (external || kept) source_paused reason why))
      ∷ ("guard", text why)
      ∷ ("sealed", flag source_paused)
      ∷ ("source_paused", flag source_paused)
      ∷ ("source_resumed", flag false)
      ∷ ("writes_reopened", flag false)
      ∷ ("external_pause_held", flag external)
      ∷ []

  unfoldable pub strand : String → Value → String → Action Unit
  strand reason detail why = do
    from ← gets (λ m. m.state)
    observed ← observe_paused
    kept ← gets (λ m. m.strand_intent)
    ours ← gets (λ m. m.paused_by_us)
    let external = is_producer cfg.mode && (not ours && holds observed)
    error reason detail
    source_paused ← ensure_source_paused
    modify (λ m. record m { rollback_pending = false })
    enter stranded (strand_record from reason detail why kept source_paused external)
    modify (λ m. record m { strand_intent = false })
    page stranded
