-- ===== src/Machine/Operator/Undo.antt =====
-- src/machine.rs, `operator_rollback_opts`: what `pulse-cutover rollback` does once it is not refused.
use pulse_cutover.Prelude.{
  max, String, Bool, true, false, not, ◌&&◌, ◌||◌, Option, none, some, List, [], ◌∷◌, ◌++◌,
  is_empty, if◌then◌else◌, is_some,
}
use pulse_cutover.Json.{Json}
use pulse_cutover.State.{State, as_str}
use pulse_cutover.Journal.Episodes.{release}
use pulse_cutover.Machine.Exec.{
  pure, raise, gets, modify, attempt, ◌>>=◌, ◌>>◌, when, on_result, on_option,
}
use pulse_cutover.Machine.Host.{Host}
use pulse_cutover.Machine.Core.{Machine, Action, evidence, current_episode}
use pulse_cutover.Machine.Halt.{
  past_point_of_no_return, finish_shadow_refusal, is_shadow_journal, identity_problems,
  shadow_refuse, prove_shadow, problem_list, hook,
}
use pulse_cutover.Machine.Reads.{journal_pause}
use pulse_cutover.Machine.Strand.{is_stranded}
use pulse_cutover.Machine.Steps.{mark_step, unstage}
use pulse_cutover.Machine.Rollback.{rollback_steps}
use pulse_cutover.Machine.Abort.{request_rollback}
use pulse_cutover.Machine.Operator.Texts.{
  refused_before, done_before, past_refusal, not_reproven, unproven_refusal, released_note,
  fenced_note, fence_failure, unfinished,
}
use pulse_cutover.Machine.Operator.{
  operator_reason, ensure_legacy_takeover, check_bindings, stop_orphans, rolled_back, must_release,
  guard_operator,
}

pub record RollbackOutcome : Type 0 where
  pub state : State
  pub failed : List String
  pub notes : List String
  pub already : Bool

module _ ⦃J : Json⦄ ⦃H : Host⦄ where
  open J use {Value, text, flag, number, object}
  open H use {cfg}

  abbrev outcome : List String → List String → Bool → Action RollbackOutcome
  outcome failed notes already = do
    st ← gets (λ m. m.state)
    pure (record { state = st; failed = failed; notes = notes; already = already })

  -- A shadow's identity is proven in this run, or the rollback ends with the text that it returns.
  unfoldable pub reprove_for_operator : Bool → Action (Option String)
  reprove_for_operator past = do
    shadow ← gets is_shadow_journal
    proven ← gets (λ m. m.shadow_proven)
    if not (shadow && not proven) then pure none else do
      problems ← identity_problems
      if is_empty problems
          then prove_shadow "re-proven before an operator rollback" >> pure none
          else if past
          then raise (unproven_refusal (not_reproven problems))
          else do
            shadow_refuse
                "operator rollback: SHADOW identity not re-proven, so the source is NOT resumed"
                (problem_list problems)
            pure (some (not_reproven problems))

  -- The operator releases the held pause: journaled after the rollback's intent.
  unfoldable pub release_held : Bool → Action (List String)
  release_held held = if not held then pure [] else do
    episode ← gets current_episode
    journal_pause
        (("side_effect", text "external_pause_release")
          ∷ ("episode", number (max episode 1))
          ∷ ("by", text cfg.operator)
          ∷ [])
        (release true)
    modify (λ m. record m { adopted_released = true })
    pure (released_note ∷ [])

  -- This box's target is stopped before the source is resumed. Some text: it was not.
  unfoldable pub fence_target : Action (Option String)
  fence_target = do
    evidence (("side_effect", text "target_fence") ∷ ("cmd", text cfg.fence_cmd) ∷ [])
    r ← attempt (hook cfg.fence_cmd)
    on_result r
        (λ out. do
          evidence (("target_fenced", flag true) ∷ ("output", text out) ∷ [])
          mark_step "target_fence"
          pure none)
        (λ e. do
          evidence (
              ("target_fenced", flag false)
              ∷ ("error", text e)
              ∷ (
                "forced_rollback_blocked",
                text
                    "the target on this box could not be proven stopped; the source was NOT resumed",
              )
              ∷ [])
          pure (some (fence_failure e)))

  -- A forced rollback runs every revert that is configured: a flip may have half-applied.
  abbrev force_reverts : Machine → Machine
  force_reverts m = record m {
    flip_ran = m.flip_ran || is_some cfg.flip;
    hyperion_flip_ran = m.hyperion_flip_ran || is_some cfg.hyperion;
  }

  unfoldable pub undo_all : Bool → Bool → List String → Action RollbackOutcome
  undo_all forced past notes = do
    when forced (modify force_reverts)
    before ← gets (λ m. m.state)
    let detail = object (
        ("by", text "operator_rollback")
        ∷ ("force_after_ignite", flag forced)
        ∷ ("ignition_started", flag past)
        ∷ ("state_before", text (as_str before))
        ∷ [])
    steps ← rollback_steps operator_reason detail true true
    after ← gets (λ m. m.state)
    outcome (if is_stranded after then steps.0 ++ (unfinished ∷ []) else steps.0) (notes ++ steps.1)
        false

  unfoldable pub undo : Bool → Bool → Bool → List String → Action RollbackOutcome
  undo forced past held notes = do
    request_rollback (("rollback_requested", flag true) ∷ ("force_after_ignite", flag forced) ∷ [])
    released ← release_held held
    unfenced ← if forced then fence_target else pure none
    on_option unfenced
        (undo_all forced past (notes ++ (released ++ (if forced then fenced_note ∷ [] else []))))
        (λ failure. outcome (failure ∷ []) (notes ++ released) false)

  -- A staged file that appeared after a complete rollback is moved aside too.
  unfoldable pub already_done : List String → Action RollbackOutcome
  already_done notes = do
    q ← unstage true (record {
      failed = [];
      notes = notes;
      fields = [];
      resumed_now = false;
      resume_error = none;
    })
    outcome q.failed (q.notes ++ (done_before ∷ [])) true

  unfoldable pub rollback_unless_past : Bool → Bool → List String → Action RollbackOutcome
  rollback_unless_past force held notes = do
    past ← gets past_point_of_no_return
    complete ← gets rolled_back
    st ← gets (λ m. m.state)
    if complete
        then already_done notes
        else if past && not force
        then raise (past_refusal st)
        else do
          unproven ← reprove_for_operator past
          on_option unproven (undo (force && past) past held notes)
              (λ message. outcome (message ∷ []) notes false)

  unfoldable pub operator_rollback_opts : Bool → Bool → Action RollbackOutcome
  operator_rollback_opts force force_stranded = do
    ensure_legacy_takeover "roll back"
    check_bindings
    notes ← stop_orphans
    refused ← gets (λ m. m.shadow_refused)
    if refused
        then finish_shadow_refusal
            "operator rollback of a shadow journal whose identity was refused"
          >> outcome [] (notes ++ (refused_before ∷ [])) true
        else do
          held ← must_release force_stranded
          guard_operator force_stranded
          rollback_unless_past force held notes

  unfoldable pub operator_rollback : Bool → Action RollbackOutcome
  operator_rollback force = operator_rollback_opts force false
