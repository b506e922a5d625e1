-- ===== src/Machine/Abort.antt =====
-- src/machine.rs: the end of a ceremony before the point of no return, by the agent (`abort`) and by the
-- operator (`pulse-cutover rollback`).
pub mod Ends
pub mod Viewed
use pulse_cutover.Prelude.{
  String, Bool, true, false, not, ◌&&◌, ◌||◌, Option, none, some, List, [], ◌∷◌, is_empty,
  if◌then◌else◌, is_some, unwrap_or,
}
use Prim.Native.String.{◌++◌}
use pulse_cutover.Json.{Json}
use pulse_cutover.State.{
  State, armed, frozen, snapshotted, verified, ignited, flipped, live, aborted, halted, stranded,
}
use pulse_cutover.Machine.Exec.{
  Exec, Result, ok, err, pure, raise, gets, modify, attempt, ◌>>=◌, ◌>>◌, when, on_result,
  on_option,
}
use pulse_cutover.Machine.Host.{Host, Record}
use pulse_cutover.Machine.Core.{Machine, Action, ask, evidence, is_producer}
use pulse_cutover.Machine.Halt.{
  past_point_of_no_return, halt, shadow_refuse, shadow_reprove_before_resume,
}
use pulse_cutover.Machine.Reads.{src_retry, source_unreachable, transient_rpc_error}
use pulse_cutover.Machine.Strand.{strand}
use pulse_cutover.Machine.Rollback.{rollback_steps}
use pulse_cutover.Machine.Guard.{
  needs_resume_guard, has_event, resume_guard, wait_own_report_withdrawn,
}

-- `matches!(state, Armed | Frozen | Snapshotted)`.
abbrev before_verified : State → Bool
before_verified armed = true
before_verified frozen = true
before_verified snapshotted = true
before_verified verified = false
before_verified ignited = false
before_verified flipped = false
before_verified live = false
before_verified aborted = false
before_verified halted = false
before_verified stranded = false

module _ ⦃J : Json⦄ ⦃H : Host⦄ where
  open J use {Value, text, flag, object}
  open H use {cfg}

  abbrev armed_early_abort : Machine → Bool
  armed_early_abort m = unwrap_or m.early_abort_armed (H.journaled_early_abort m.world)

  unfoldable pub early_abort_on : Machine → Bool
  early_abort_on m =
      cfg.coordinated
      && (cfg.early_abort
          && (is_some cfg.event_id && (is_producer cfg.mode && armed_early_abort m)))

  -- The local tombstone, written before the exit is reported; a failure is journaled.
  unfoldable pub leave_tombstone : String → Action Unit
  leave_tombstone reason = do
    on ← gets early_abort_on
    st ← gets (λ m. m.state)
    when (on && before_verified st) (
        on_option cfg.event_id (pure tt) λ ev. do
          r ← attempt (ask (H.record_exit_tombstone ev reason))
          on_result r (λ _. pure tt)
              λ e. evidence (("exit_tombstone_failed", text e) ∷ ("event_id", text ev) ∷ []))

  abbrev pub requested : Record
  requested = ("rollback_requested", flag true) ∷ ("by", text "agent_abort") ∷ []

  abbrev pub intent_record : String → Record
  intent_record reason = ("abort_intent", flag true) ∷ ("reason", text reason) ∷ []

  unfoldable pub request_rollback : Record → Action Unit
  request_rollback r = do evidence r; modify (λ m. record m { rollback_pending = true })

  -- The intent, and the withdrawal of this node's report.
  unfoldable pub withdraw_report : Record → String → Action Unit
  withdraw_report r reason = do
    request_rollback r
    evidence (intent_record reason)
    wait_own_report_withdrawn

  -- After a first clear answer.
  unfoldable pub ask_again : Record → String → Action (Option String)
  ask_again r reason = do withdraw_report r reason; resume_guard

  -- Some text: stranded with it.
  unfoldable pub guard_twice : Record → String → Action (Option String)
  guard_twice r reason = do
    first ← resume_guard
    on_option first (ask_again r reason) (λ why. pure (some why))

  unfoldable pub roll_back : String → Value → Action Unit
  roll_back reason detail = do
    pending ← gets (λ m. m.rollback_pending)
    when (cfg.auto_rollback && not pending) (request_rollback requested)
    rollback_steps reason detail cfg.auto_rollback false
    pure tt

  unfoldable pub abort_guarded : String → Value → Action Unit
  abort_guarded reason detail = do
    guarded ← gets needs_resume_guard
    if not guarded then roll_back reason detail else do
      refused ← guard_twice requested reason
      on_option refused (roll_back reason detail) (strand reason detail)

  unfoldable pub abort_before_ignition : String → Value → Action Unit
  abort_before_ignition reason detail = do
    leave_tombstone reason
    refused ← gets (λ m. m.shadow_refused)
    if refused then shadow_refuse reason detail else do
      proven ←
          shadow_reprove_before_resume "an abort"
            (object (("reason", text reason) ∷ ("detail", detail) ∷ []))
      if not proven then pure tt else abort_guarded reason detail

  unfoldable pub abort : String → Value → Action Unit
  abort reason detail = do
    past ← gets past_point_of_no_return
    if past then halt reason detail else abort_before_ignition reason detail
