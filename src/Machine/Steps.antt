-- ===== src/Machine/Steps.antt =====
-- src/machine.rs: the steps of a rollback that are done once, and the staged snapshot.
use pulse_cutover.Prelude.{
  String, Bool, true, not, ◌&&◌, ◌||◌, Option, List, [], ◌∷◌, if◌then◌else◌, is_some,
}
use Prim.Native.String.{◌++◌}
use pulse_cutover.Prelude.Decimal.{show_u64}
use pulse_cutover.Json.{Json}
use pulse_cutover.Machine.Exec.{pure, gets, modify, attempt, ◌>>=◌, ◌>>◌, on_result, on_option}
use pulse_cutover.Machine.Host.{Host, Record, moved_aside}
use pulse_cutover.Machine.Core.{Action, call, evidence, push, now_ms}
use pulse_cutover.Machine.Halt.{shadow_mutation_gate, hook}
use pulse_cutover.Machine.Admission.Release.{add_step}

-- The keys of the record `rollback`, and their texts.
pub data Field : Type 0 where
  reason auto_rollback rollback_performed by force_after_ignite ignition_started : Field
  steps_already_done source_producer_resumed source_producer_resume_error : Field
  source_restarted source_restart_error source_stopped_no_start_cmd : Field
  hyperion_flip_reverted hyperion_flip_revert_error flip_reverted flip_revert_error : Field
  source_chain_untouched reverts_ok : Field

unfoldable pub key : Field → String
key reason = "reason"
key auto_rollback = "auto_rollback"
key rollback_performed = "rollback_performed"
key by = "by"
key force_after_ignite = "force_after_ignite"
key ignition_started = "ignition_started"
key steps_already_done = "steps_already_done"
key source_producer_resumed = "source_producer_resumed"
key source_producer_resume_error = "source_producer_resume_error"
key source_restarted = "source_restarted"
key source_restart_error = "source_restart_error"
key source_stopped_no_start_cmd = "source_stopped_no_start_cmd"
key hyperion_flip_reverted = "hyperion_flip_reverted"
key hyperion_flip_revert_error = "hyperion_flip_revert_error"
key flip_reverted = "flip_reverted"
key flip_revert_error = "flip_revert_error"
key source_chain_untouched = "source_chain_untouched"
key reverts_ok = "reverts_ok"

unfoldable pub record_of : {V : Type 0} → List (Field × V) → List (String × V)
record_of [] = []
record_of ((f, v) ∷ fs) = (key f, v) ∷ record_of fs

-- The locals of `rollback_steps`: what failed, the notes for the operator, the fields of the record
-- `rollback`, whether the source was resumed, and its "source_producer_resume_error".
pub record Progress (V : Type 0) : Type 0 where
  pub failed : List String
  pub notes : List String
  pub fields : List (Field × V)
  pub resumed_now : Bool
  pub resume_error : Option String

abbrev pub add_failed : {V : Type 0} → String → Progress V → Progress V
add_failed f o = record o { failed = push f o.failed }

abbrev pub add_note : {V : Type 0} → String → Progress V → Progress V
add_note n o = record o { notes = push n o.notes }

abbrev pub add_field : {V : Type 0} → Field → V → Progress V → Progress V
add_field k v o = record o { fields = push (k, v) o.fields }

abbrev pub resume_failure : String → String
resume_failure e = "resume the source producer: " ++ e

module _ ⦃J : Json⦄ ⦃H : Host⦄ where
  open J use {Value, text, flag, number, object}
  open H use {cfg}

  unfoldable pub mark_step : String → Action Unit
  mark_step name = do
    evidence (("rollback_step", text name) ∷ ("ok", flag true) ∷ [])
    modify (add_step name)

  abbrev moved_record : String → Record
  moved_record to =
      ("unstaged", object (("from", text cfg.staged_path) ∷ ("to", text to) ∷ [])) ∷ []

  -- The staged snapshot is moved aside: any, or the one that this ceremony staged.
  unfoldable pub unstage : Bool → Progress Value → Action (Progress Value)
  unstage any o = do
    exists ← gets (λ m. H.staged_exists m.world)
    staged ← gets (λ m. is_some m.staged_sha256)
    closed ← gets (λ m. m.writes_closed_by_us)
    if not exists || not (staged || (any && closed)) then pure o else do
      shadow_mutation_gate "moving the staged snapshot aside"
      now ← now_ms
      let to = cfg.staged_path ++ ".rolled-back-" ++ show_u64 now
      r ← attempt (call (H.rename_staged to) (moved_aside to))
      on_result r
          (λ _. do
            evidence (moved_record to)
            pure (add_note ("staged snapshot moved aside to " ++ to) o))
          (λ e. do
            let msg = "unstage " ++ cfg.staged_path ++ " failed: " ++ e
            evidence (("unstage_error", text msg) ∷ [])
            pure (add_failed msg o))

  -- One revert of an API node: its command, if it is configured, and the step.
  unfoldable pub revert :
      String → Field → Field → String → Option String → Progress Value → Action (Progress Value)
  revert step done error what cmd o = on_option cmd (pure o) λ c. do
    r ← attempt (hook c)
    on_result r (λ out. do mark_step step; pure (add_field done (text out) o))
        (λ e. pure (add_field error (text e) (add_failed (what ++ ": " ++ e) o)))
