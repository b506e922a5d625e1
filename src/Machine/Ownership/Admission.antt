-- ===== src/Machine/Ownership/Admission.antt =====
-- src/machine.rs: the freeze, the lock and the strand keep the memory, the journal and the flags in step.
use pulse_cutover.Prelude.{
  ℕ, String, Bool, true, false, ◌≡◌, refl, List, [], ◌∷◌, Option, none, some, Bool-cases, inl, inr,
}
use pulse_cutover.Json.{Json, BuildLaws, entry}
use pulse_cutover.State.{State}
use pulse_cutover.Journal.Episodes.{PauseEvent}
use pulse_cutover.Machine.Exec.{modify}
use pulse_cutover.Machine.Exec.Along.{Kept-Preorder}
use pulse_cutover.Machine.Host.{Host, Record, saw_whitelist, set_whitelist}
use pulse_cutover.Machine.Core.{Machine, evidence}
use pulse_cutover.Machine.Halt.{page, hook}
use pulse_cutover.Machine.Admission.{
  actor_whitelist, set_actor_whitelist, freeze_writes, record_original, confirm_lock,
  lock_admission,
}
use pulse_cutover.Machine.Admission.Recheck.{
  reapply_lock, note_loss, head_or, lose_lock, check_admission_lock_tick, check_admission_lock,
  pause_again, hold_source_sealed_tick, hold_source_sealed, lost_record,
}
use pulse_cutover.Machine.Admission.Release.{
  restore_original, settle_whitelist, unlock, release_admission, step_done, add_step,
}
use pulse_cutover.Machine.Strand.{relock_stranded, ensure_source_paused, observe_paused, strand}
use pulse_cutover.Machine.Ownership.{marks, standing}
use pulse_cutover.Machine.Ownership.Silence.{silent, only_effect, only_step, Says-effect, Says-step}
use pulse_cutover.Machine.Ownership.Quiet.{evidence-Says}
use pulse_cutover.Machine.Ownership.Gates.{hook-Quiet, page-Quiet}
use pulse_cutover.Machine.Ownership.Law.{Keeps, Keeps-Quiet, keeps_rules, call-Keeps, modify-Keeps}
use pulse_cutover.Machine.Ownership.Calls.{
  gate-Keeps, producer_gate-Keeps, read_paused-Keeps, src_retry-Keeps, with_tick-Keeps,
  src_pause-Keeps,
}

module _ ⦃J : Json⦄ ⦃H : Host⦄ where
  open J use {Value, text, flag, array}

  module _ (laws : BuildLaws J) {before : List PauseEvent} where
    pub hook-Keeps : (cmd : String) → Keeps before (hook cmd)
    hook-Keeps cmd = Keeps-Quiet _ (hook-Quiet laws cmd)

    pub page-Keeps : (st : State) → Keeps before (page st)
    page-Keeps st = Keeps-Quiet _ (page-Quiet laws st)

    freeze-Keeps : Keeps before (evidence (("side_effect", text "write_freeze") ∷ []))
    unfolding only_effect entry
    freeze-Keeps =
        Keeps-Quiet _
          (evidence-Says laws _ (Says-effect laws _ "write_freeze" false refl refl refl))

    pub freeze_writes-Keeps : (cmd : String) → Keeps before (freeze_writes cmd)
    unfolding freeze_writes
    freeze_writes-Keeps cmd = search (keeps_rules, freeze-Keeps, hook-Keeps) depth 30 fits 4000

    actor_whitelist-Keeps : Keeps before actor_whitelist
    unfolding actor_whitelist marks
    actor_whitelist-Keeps = call-Keeps H.actor_whitelist saw_whitelist λ r t. refl

    set_actor_whitelist-Keeps : (l : List String) → Keeps before (set_actor_whitelist l)
    unfolding set_actor_whitelist marks
    set_actor_whitelist-Keeps l = call-Keeps (H.set_actor_whitelist l) (set_whitelist l) λ r t. refl

    lock-Keeps :
        (v w : Value)
        → Keeps before (
            evidence (
              ("side_effect", text "admission_lock")
              ∷ ("sentinel", v)
              ∷ ("original_actor_whitelist", w)
              ∷ []))
    unfolding only_effect entry
    lock-Keeps v w =
        Keeps-Quiet _
          (evidence-Says laws _ (Says-effect laws _ "admission_lock" false refl refl refl))

    record_original-Keeps : Keeps before record_original
    unfolding record_original
    record_original-Keeps =
        search (keeps_rules, actor_whitelist-Keeps, lock-Keeps) depth 30 fits 4000

    confirm_lock-Keeps : Keeps before confirm_lock
    unfolding confirm_lock
    confirm_lock-Keeps = search (keeps_rules, actor_whitelist-Keeps) depth 30 fits 4000

    pub lock_admission-Keeps : Keeps before lock_admission
    unfolding lock_admission silent entry
    lock_admission-Keeps =
        search
          (
            keeps_rules, gate-Keeps, producer_gate-Keeps, record_original-Keeps,
            set_actor_whitelist-Keeps, confirm_lock-Keeps,
          )
          depth 40 fits 4000

    reapply_lock-Keeps : Keeps before reapply_lock
    unfolding reapply_lock
    reapply_lock-Keeps =
        search
          (
            keeps_rules, gate-Keeps, producer_gate-Keeps, src_retry-Keeps,
            set_actor_whitelist-Keeps, actor_whitelist-Keeps,
          )
          depth 40 fits 4000

    lost-Keeps : (rec : Record) (b : Bool) → Keeps before (evidence (lost_record rec b))
    unfolding silent entry
    lost-Keeps rec true = search keeps_rules
    lost-Keeps rec false = search keeps_rules

    note_loss-Keeps : (rec : Record) (b : Bool) → Keeps before (note_loss rec b)
    unfolding note_loss
    note_loss-Keeps rec b = search (keeps_rules, lost-Keeps) depth 30 fits 4000

    head_or-Keeps : (o : Option ℕ) → Keeps before (head_or o)
    unfolding head_or
    head_or-Keeps none = search keeps_rules depth 30 fits 4000
    head_or-Keeps (some h) = search keeps_rules

    lose_lock-Keeps :
        (at : String) (o : Option ℕ) (b : Bool) (v : Value) → Keeps before (lose_lock at o b v)
    unfolding lose_lock
    lose_lock-Keeps at o b v =
        search (keeps_rules, head_or-Keeps, note_loss-Keeps, reapply_lock-Keeps) depth 40 fits 4000

    check_tick-Keeps :
        (at : String) (o : Option ℕ) (b : Bool) → Keeps before (check_admission_lock_tick at o b)
    unfolding check_admission_lock_tick
    check_tick-Keeps at o b =
        search (keeps_rules, src_retry-Keeps, actor_whitelist-Keeps, lose_lock-Keeps) depth 40 fits
          4000

    pub check_admission_lock-Keeps :
        (at : String) (o : Option ℕ) (b : Bool) → Keeps before (check_admission_lock at o b)
    unfolding check_admission_lock
    check_admission_lock-Keeps at o b = with_tick-Keeps laws _ (check_tick-Keeps at o b)

    pause_again-Keeps : (at : String) → Keeps before (pause_again at)
    unfolding pause_again silent entry
    pause_again-Keeps at =
        search (keeps_rules, src_pause-Keeps, read_paused-Keeps) depth 40 fits 4000

    hold_tick-Keeps : (at : String) → Keeps before (hold_source_sealed_tick at)
    unfolding hold_source_sealed_tick
    hold_tick-Keeps at =
        search (keeps_rules, pause_again-Keeps, read_paused-Keeps, check_admission_lock-Keeps) depth
          40 fits 4000

    pub hold_source_sealed-Keeps : (at : String) → Keeps before (hold_source_sealed at)
    unfolding hold_source_sealed
    hold_source_sealed-Keeps at = with_tick-Keeps laws _ (hold_tick-Keeps at)

    relock_stranded-Keeps : Keeps before relock_stranded
    unfolding relock_stranded silent entry
    relock_stranded-Keeps = search (keeps_rules, check_admission_lock-Keeps) depth 30 fits 4000

    pub ensure_source_paused-Keeps : Keeps before ensure_source_paused
    unfolding ensure_source_paused silent entry
    ensure_source_paused-Keeps =
        search (keeps_rules, read_paused-Keeps, src_pause-Keeps, relock_stranded-Keeps) depth 40
          fits 4000

    observe_paused-Keeps : Keeps before observe_paused
    unfolding observe_paused
    observe_paused-Keeps = search (keeps_rules, read_paused-Keeps) depth 30 fits 4000

    pub strand-Keeps :
        (reason : String) (detail : Value) (why : String) → Keeps before (strand reason detail why)
    unfolding strand silent entry
    strand-Keeps reason detail why =
        search (keeps_rules, observe_paused-Keeps, ensure_source_paused-Keeps, page-Keeps) depth 40
          fits 4000

    restore_original-Keeps : (l : List String) → Keeps before (restore_original l)
    unfolding restore_original
    restore_original-Keeps l =
        search (keeps_rules, set_actor_whitelist-Keeps, actor_whitelist-Keeps) depth 40 fits 4000

    settle_whitelist-Keeps : (o l : List String) → Keeps before (settle_whitelist o l)
    unfolding settle_whitelist silent entry
    settle_whitelist-Keeps o l = search (keeps_rules, restore_original-Keeps) depth 40 fits 4000

    unlocked-Keeps :
        (v w : Value)
        → Keeps before (
            evidence (
              ("rollback_step", text "admission_unlock")
              ∷ ("ok", flag true)
              ∷ ("result", v)
              ∷ ("restored_actor_whitelist", w)
              ∷ []))
    unfolding only_step entry
    unlocked-Keeps v w =
        Keeps-Quiet _ (evidence-Says laws _ (Says-step laws _ "admission_unlock" refl refl refl))

    pub add_step-Keeps : (name : String) → Keeps before (modify (add_step name))
    add_step-Keeps name = modify-Keeps (add_step name) same
      where
        same : (m : Machine) → standing (add_step name m) ≡ standing m
        same m = elim (Bool-cases (step_done name m)) [ inl e ↦ rw e refl | inr e ↦ rw e refl ]

    unlock-Keeps : (original : List String) → Keeps before (unlock original)
    unfolding unlock
    unlock-Keeps original =
        search
          (
            keeps_rules, gate-Keeps, producer_gate-Keeps, actor_whitelist-Keeps,
            settle_whitelist-Keeps, unlocked-Keeps, add_step-Keeps,
          )
          depth 40 fits 4000

    pub release_admission-Keeps : Keeps before release_admission
    unfolding release_admission
    release_admission-Keeps = search (keeps_rules, unlock-Keeps) depth 40 fits 4000
