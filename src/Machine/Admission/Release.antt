-- ===== src/Machine/Admission/Release.antt =====
-- src/machine.rs, `release_admission`: the list that the lock replaced is put back.
use pulse_cutover.Prelude.{String, Bool, true, none, List, [], ◌∷◌, if◌then◌else◌, contains}
use Prim.Native.String.{◌++◌}
use pulse_cutover.Json.{Json}
use pulse_cutover.Machine.Exec.{pure, raise, lift, gets, modify, attempt, ◌>>=◌, ◌>>◌, on_option}
use pulse_cutover.Machine.Host.{Host, Record}
use pulse_cutover.Machine.Core.{Machine, Action, evidence, push}
use pulse_cutover.Machine.Halt.{shadow_mutation_gate, shadow_producer_gate}
use pulse_cutover.Machine.Admission.{
  sentinel, same_texts, show_actors, with_context, texts, actor_whitelist, set_actor_whitelist,
}

module _ ⦃J : Json⦄ ⦃H : Host⦄ where
  open J use {Value, null, text, flag, number, array, object}
  open H use {cfg}

  unfoldable pub step_done : String → Machine → Bool
  step_done name m = contains m.rollback_steps_done name

  abbrev pub add_step : String → Machine → Machine
  add_step name m =
      if step_done name m
      then m
      else record m { rollback_steps_done = push name m.rollback_steps_done }

  abbrev unlock_record : String → List String → Record
  unlock_record result original =
      ("rollback_step", text "admission_unlock")
      ∷ ("ok", flag true)
      ∷ ("result", text result)
      ∷ ("restored_actor_whitelist", texts original)
      ∷ []

  unfoldable pub restore_original : List String → Action String
  restore_original original = do
    set ← attempt (set_actor_whitelist original)
    lift (with_context "set_whitelist_blacklist (restore)" set)
    r ← attempt actor_whitelist
    read ← lift (with_context "confirming the restore" r)
    on_option read (pure "restored (not readable by this ChainOps)") λ l.
        if same_texts l original
        then pure "restored"
        else raise (
            "the restore answered but the producer's actor whitelist is "
            ++ show_actors l
            ++ ", not "
            ++ show_actors original)

  -- What becomes of the list that the node reports.
  unfoldable pub settle_whitelist : List String → List String → Action String
  settle_whitelist original l = do
    applied ← gets (λ m. m.admission_lock_applied)
    if same_texts l sentinel then restore_original original else do
      if same_texts l original
          then (if applied
              then pure "already the original list"
              else pure
                  "the lock was never applied (setting it failed or never ran): nothing to restore")
          else do
            evidence (("admission_lock_changed_externally", texts l) ∷ [])
            pure "changed by someone else: left as it is"

  unfoldable pub unlock : List String → Action Unit
  unlock original = do
    shadow_mutation_gate "restoring transaction admission on the source producer"
    shadow_producer_gate "restoring transaction admission on the source producer"
    r ← attempt actor_whitelist
    current ← lift (with_context "reading the producer's actor whitelist" r)
    note ← on_option current (pure "not readable by this ChainOps") (settle_whitelist original)
    evidence (unlock_record note original)
    modify (add_step "admission_unlock")
    modify (λ m. record m { admission_lock = none })

  unfoldable pub release_admission : Action Unit
  release_admission = do
    lock ← gets (λ m. m.admission_lock)
    on_option lock (pure tt) λ original. do
      done ← gets (step_done "admission_unlock")
      if done then modify (λ m. record m { admission_lock = none }) else unlock original
