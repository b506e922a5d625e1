-- ===== src/Machine/Ownership/Abort.antt =====
-- src/machine.rs, `abort`: whatever it does, the memory, the journal and the flags stay in step.
use pulse_cutover.Prelude.{ℕ, zero, suc, String, Bool, true, ◌≡◌, List, Option, none, some}
use pulse_cutover.Json.{Json, BuildLaws, entry}
use pulse_cutover.Journal.Episodes.{PauseEvent}
use pulse_cutover.Machine.Exec.Along.{Kept-Preorder}
use pulse_cutover.Machine.Host.{Host, Record}
use pulse_cutover.Machine.Core.{evidence}
use pulse_cutover.Machine.Halt.{halt, shadow_refuse, shadow_reprove_before_resume}
use pulse_cutover.Machine.Guard.{
  resume_guard, settle, settle_peers, await_withdrawal, wait_own_report_withdrawn, guard_record,
}
use pulse_cutover.Machine.Abort.{
  leave_tombstone, request_rollback, withdraw_report, ask_again, guard_twice, roll_back,
  abort_guarded, abort_before_ignition, abort,
}
use pulse_cutover.Machine.Ownership.Silence.{silent}
use pulse_cutover.Machine.Ownership.Gates.{
  halt-Quiet, shadow_refuse-Quiet, shadow_reprove_before_resume-Quiet,
}
use pulse_cutover.Machine.Ownership.Views.{
  fleet_status-Keeps, is_abort_signed-Keeps, view_memory-Keeps,
}
use pulse_cutover.Machine.Ownership.Law.{Keeps, Keeps-Quiet, keeps_rules}
use pulse_cutover.Machine.Ownership.Admission.{strand-Keeps}
use pulse_cutover.Machine.Ownership.Rollback.{rollback_steps-Keeps}

module _ ⦃J : Json⦄ ⦃H : Host⦄ where
  open J use {Value}

  module _ (laws : BuildLaws J) {before : List PauseEvent} where
    guarded-Keeps : (b : Bool) (o : Option String) → Keeps before (evidence (guard_record b o))
    unfolding silent entry
    guarded-Keeps b none = search keeps_rules
    guarded-Keeps b (some why) = search keeps_rules

    pub resume_guard-Keeps : Keeps before resume_guard
    unfolding resume_guard
    resume_guard-Keeps =
        search
          (keeps_rules, guarded-Keeps, fleet_status-Keeps, is_abort_signed-Keeps, view_memory-Keeps)
          depth 40 fits 4000

    settle-Keeps : (fuel until : ℕ) → Keeps before (settle fuel until)
    unfolding settle
    settle-Keeps zero until = search keeps_rules
    settle-Keeps (suc fuel) until = search (keeps_rules, settle-Keeps fuel) depth 30 fits 4000

    settle_peers-Keeps : (cycle : ℕ) → Keeps before (settle_peers cycle)
    unfolding settle_peers silent entry
    settle_peers-Keeps cycle = search (keeps_rules, settle-Keeps) depth 30 fits 4000

    await-Keeps : (cycle fuel deadline : ℕ) → Keeps before (await_withdrawal cycle fuel deadline)
    unfolding await_withdrawal silent entry
    await-Keeps cycle zero deadline = search keeps_rules
    await-Keeps cycle (suc fuel) deadline =
        search (keeps_rules, settle_peers-Keeps, await-Keeps cycle fuel) depth 30 fits 4000

    wait-Keeps : Keeps before wait_own_report_withdrawn
    unfolding wait_own_report_withdrawn
    wait-Keeps = search (keeps_rules, await-Keeps) depth 30 fits 4000

    pub request-Keeps : (r : Record) → silent laws r ≡ true → Keeps before (request_rollback r)
    unfolding request_rollback
    request-Keeps r h = search keeps_rules depth 30 fits 4000

    pub guard_twice-Keeps :
        (r : Record) (reason : String) → silent laws r ≡ true → Keeps before (guard_twice r reason)
    unfolding guard_twice ask_again withdraw_report silent entry
    guard_twice-Keeps r reason h =
        search (keeps_rules, resume_guard-Keeps, request-Keeps, wait-Keeps) depth 40 fits 4000

    leave_tombstone-Keeps : (reason : String) → Keeps before (leave_tombstone reason)
    unfolding leave_tombstone silent entry
    leave_tombstone-Keeps reason = search keeps_rules depth 30 fits 4000

    roll_back-Keeps : (reason : String) (detail : Value) → Keeps before (roll_back reason detail)
    unfolding roll_back silent entry
    roll_back-Keeps reason detail =
        search (keeps_rules, request-Keeps, rollback_steps-Keeps) depth 30 fits 4000

    abort_guarded-Keeps :
        (reason : String) (detail : Value) → Keeps before (abort_guarded reason detail)
    unfolding abort_guarded silent entry
    abort_guarded-Keeps reason detail =
        search (keeps_rules, roll_back-Keeps, guard_twice-Keeps, strand-Keeps) depth 40 fits 4000

    refuse-Keeps : (reason : String) (detail : Value) → Keeps before (shadow_refuse reason detail)
    refuse-Keeps reason detail = Keeps-Quiet _ (shadow_refuse-Quiet laws reason detail)

    reprove-Keeps :
        (reason : String) (detail : Value)
        → Keeps before (shadow_reprove_before_resume reason detail)
    reprove-Keeps reason detail =
        Keeps-Quiet _ (shadow_reprove_before_resume-Quiet laws reason detail)

    before_ignition-Keeps :
        (reason : String) (detail : Value) → Keeps before (abort_before_ignition reason detail)
    unfolding abort_before_ignition
    before_ignition-Keeps reason detail =
        search
          (keeps_rules, leave_tombstone-Keeps, refuse-Keeps, reprove-Keeps, abort_guarded-Keeps)
          depth 40 fits 4000

    halt-Keeps : (reason : String) (detail : Value) → Keeps before (halt reason detail)
    halt-Keeps reason detail = Keeps-Quiet _ (halt-Quiet laws reason detail)

    pub abort-Keeps : (reason : String) (detail : Value) → Keeps before (abort reason detail)
    unfolding abort
    abort-Keeps reason detail =
        search (keeps_rules, halt-Keeps, before_ignition-Keeps) depth 40 fits 4000
