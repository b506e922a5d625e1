-- ===== src/Machine/Ownership/Operator.antt =====
-- src/machine.rs: the operator's rollback keeps the memory, the journal and the flags in step.
use pulse_cutover.Prelude.{ℕ, String, Bool, true, false, refl, List, [], ◌∷◌}
use pulse_cutover.Json.{Json, BuildLaws, entry}
use pulse_cutover.State.{State}
use pulse_cutover.Journal.Episodes.{PauseEvent, release}
use pulse_cutover.Machine.Exec.Along.{Kept-Preorder}
use pulse_cutover.Machine.Host.{Host}
use pulse_cutover.Machine.Core.{evidence}
use pulse_cutover.Machine.Halt.{
  finish_shadow_refusal, shadow_refuse, prove_shadow, identity_problems,
}
use pulse_cutover.Machine.Reads.{journal_pause}
use pulse_cutover.Machine.Operator.{
  ensure_legacy_takeover, check_bindings, stop_orphans, held_pause, must_release, override_guard,
  guard_at_rest, operator_strand_message, guard_mid_ceremony, guard_operator,
}
use pulse_cutover.Machine.Operator.Undo.{
  reprove_for_operator, release_held, fence_target, undo_all, undo, already_done,
  rollback_unless_past, operator_rollback_opts,
}
use pulse_cutover.Machine.Ownership.Silence.{silent, only_effect, Says, Says-effect}
use pulse_cutover.Machine.Ownership.Law.{Keeps, Keeps-Quiet, keeps_rules, journal_pause-Keeps}
use pulse_cutover.Machine.Ownership.Gates.{shadow_refuse-Quiet, finish_shadow_refusal-Quiet}
use pulse_cutover.Machine.Ownership.Quiet.{evidence-Says}
use pulse_cutover.Machine.Ownership.Calls.{producer_paused-Keeps, read_paused_retrying-Keeps}
use pulse_cutover.Machine.Ownership.Admission.{hook-Keeps, ensure_source_paused-Keeps, strand-Keeps}
use pulse_cutover.Machine.Ownership.Rollback.{mark_step-Keeps, unstage-Keeps, rollback_steps-Keeps}
use pulse_cutover.Machine.Ownership.Abort.{resume_guard-Keeps, guard_twice-Keeps, request-Keeps}

module _ ⦃J : Json⦄ ⦃H : Host⦄ where
  open J use {Value, text, flag, number}

  module _ (laws : BuildLaws J) where
    Says-release :
        (episode : ℕ) (who : String)
        → Says laws
            (("side_effect", text "external_pause_release")
              ∷ ("episode", number episode)
              ∷ ("by", text who)
              ∷ [])
            (release false ∷ [])
    unfolding only_effect entry
    Says-release episode who = Says-effect laws _ "external_pause_release" false refl refl refl

  module _ (laws : BuildLaws J) {before : List PauseEvent} where
    takeover-Keeps : (command : String) → Keeps before (ensure_legacy_takeover command)
    unfolding ensure_legacy_takeover silent entry
    takeover-Keeps command = search keeps_rules depth 30 fits 4000

    bindings-Keeps : Keeps before check_bindings
    unfolding check_bindings
    bindings-Keeps = search keeps_rules depth 30 fits 4000

    orphans-Keeps : Keeps before stop_orphans
    unfolding stop_orphans silent entry
    orphans-Keeps = search keeps_rules depth 30 fits 4000

    held-Keeps : (unknown : Bool) → Keeps before (held_pause unknown)
    unfolding held_pause
    held-Keeps unknown = search (keeps_rules, read_paused_retrying-Keeps) depth 30 fits 4000

    release-Keeps : (force_stranded : Bool) → Keeps before (must_release force_stranded)
    unfolding must_release
    release-Keeps force_stranded = search (keeps_rules, held-Keeps) depth 30 fits 4000

    override-Keeps : Keeps before override_guard
    unfolding override_guard silent entry
    override-Keeps = search keeps_rules depth 30 fits 4000

    at_rest-Keeps : (st : State) → Keeps before (guard_at_rest st)
    unfolding guard_at_rest
    at_rest-Keeps st =
        search (keeps_rules, resume_guard-Keeps, ensure_source_paused-Keeps) depth 40 fits 4000

    message-Keeps : (why : String) → Keeps before (operator_strand_message why)
    unfolding operator_strand_message
    message-Keeps why = search (keeps_rules, producer_paused-Keeps) depth 40 fits 4000

    mid_ceremony-Keeps : (st : State) → Keeps before (guard_mid_ceremony st)
    unfolding guard_mid_ceremony silent entry
    mid_ceremony-Keeps st =
        search (keeps_rules, guard_twice-Keeps, strand-Keeps, message-Keeps) depth 40 fits 4000

    guard-Keeps : (force_stranded : Bool) → Keeps before (guard_operator force_stranded)
    unfolding guard_operator
    guard-Keeps force_stranded =
        search (keeps_rules, override-Keeps, at_rest-Keeps, mid_ceremony-Keeps) depth 40 fits 4000

    prove-Keeps : (note : String) → Keeps before (prove_shadow note)
    unfolding prove_shadow silent entry
    prove-Keeps note = search keeps_rules depth 30 fits 4000

    refuse-Keeps : (reason : String) (detail : Value) → Keeps before (shadow_refuse reason detail)
    refuse-Keeps reason detail = Keeps-Quiet _ (shadow_refuse-Quiet laws reason detail)

    refusal-Keeps : (reason : String) → Keeps before (finish_shadow_refusal reason)
    refusal-Keeps reason = Keeps-Quiet _ (finish_shadow_refusal-Quiet laws reason)

    identity-Keeps : Keeps before identity_problems
    unfolding identity_problems
    identity-Keeps = search keeps_rules

    reprove-Keeps : (past : Bool) → Keeps before (reprove_for_operator past)
    unfolding reprove_for_operator
    reprove-Keeps past =
        search (keeps_rules, identity-Keeps, prove-Keeps, refuse-Keeps) depth 40 fits 4000

    released-Keeps :
        (episode : ℕ) (who : String)
        → Keeps before (
            journal_pause
              (("side_effect", text "external_pause_release")
                ∷ ("episode", number episode)
                ∷ ("by", text who)
                ∷ [])
              (release true))
    released-Keeps episode who = journal_pause-Keeps laws _ _ (Says-release laws episode who)

    release_held-Keeps : (held : Bool) → Keeps before (release_held held)
    unfolding release_held
    release_held-Keeps held = search (keeps_rules, released-Keeps) depth 40 fits 4000

    fence_record-Keeps :
        (cmd : String)
        → Keeps before (evidence (("side_effect", text "target_fence") ∷ ("cmd", text cmd) ∷ []))
    unfolding only_effect entry
    fence_record-Keeps cmd =
        Keeps-Quiet _
          (evidence-Says laws _ (Says-effect laws _ "target_fence" false refl refl refl))

    fence-Keeps : Keeps before fence_target
    unfolding fence_target silent entry
    fence-Keeps =
        search (keeps_rules, fence_record-Keeps, hook-Keeps, mark_step-Keeps) depth 40 fits 4000

    undo_all-Keeps :
        (forced past : Bool) (notes : List String) → Keeps before (undo_all forced past notes)
    unfolding undo_all
    undo_all-Keeps forced past notes = search (keeps_rules, rollback_steps-Keeps) depth 40 fits 4000

    undo-Keeps :
        (forced past held : Bool) (notes : List String) → Keeps before (undo forced past held notes)
    unfolding undo silent entry
    undo-Keeps forced past held notes =
        search (keeps_rules, request-Keeps, release_held-Keeps, fence-Keeps, undo_all-Keeps) depth
          40 fits 4000

    already-Keeps : (notes : List String) → Keeps before (already_done notes)
    unfolding already_done
    already-Keeps notes = search (keeps_rules, unstage-Keeps) depth 40 fits 4000

    unless_past-Keeps :
        (force held : Bool) (notes : List String)
        → Keeps before (rollback_unless_past force held notes)
    unfolding rollback_unless_past
    unless_past-Keeps force held notes =
        search (keeps_rules, already-Keeps, reprove-Keeps, undo-Keeps) depth 40 fits 4000

    pub operator_rollback-Keeps :
        (force force_stranded : Bool) → Keeps before (operator_rollback_opts force force_stranded)
    unfolding operator_rollback_opts
    operator_rollback-Keeps force force_stranded =
        search
          (
            keeps_rules, takeover-Keeps, bindings-Keeps, orphans-Keeps, refusal-Keeps,
            release-Keeps, guard-Keeps, unless_past-Keeps,
          )
          depth 40 fits 4000
