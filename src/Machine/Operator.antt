-- ===== src/Machine/Operator.antt =====
-- src/machine.rs, `operator_rollback_opts`: what `pulse-cutover rollback` refuses before it undoes anything.
pub mod Texts
pub mod Undo
use pulse_cutover.Prelude.{
  String, Bool, true, false, not, ◌&&◌, ◌||◌, Option, none, some, List, [], ◌∷◌, if◌then◌else◌,
  is_some,
}
use Prim.Native.String.{◌++◌}
use pulse_cutover.Json.{Json}
use pulse_cutover.State.{State, as_str}
use pulse_cutover.Machine.Exec.{
  Result, ok, err, pure, raise, gets, modify, attempt, ◌>>=◌, ◌>>◌, on_result, on_option,
}
use pulse_cutover.Machine.Host.{Host, Record}
use pulse_cutover.Machine.Core.{Machine, Action, ask, evidence, producer_paused, is_producer}
use pulse_cutover.Machine.Halt.{is_aborted}
use pulse_cutover.Machine.Reads.{read_paused_retrying, pause_read_retry_ms, is_ok_true}
use pulse_cutover.Machine.Admission.Release.{step_done}
use pulse_cutover.Machine.Strand.{strand, is_stranded, ensure_source_paused}
use pulse_cutover.Machine.Guard.{resume_guard, operator_rollback_needs_guard}
use pulse_cutover.Machine.Abort.{guard_twice}

abbrev external_pause_held : String
external_pause_held =
    "the source producer was paused by someone else after this ceremony froze writes "
    ++ "(adopted for the cut): this ceremony never resumes another process's pause and never reopens writes "
    ++ "into a paused chain. Find out who paused it; then `pulse-cutover rollback --config <file> "
    ++ "--force-stranded --i-understand` resumes it and reopens writes (journaled), or `pulse-cutover join` "
    ++ "follows a LIVE fleet"

abbrev unknown_pause_held : String
unknown_pause_held =
    "refusing to roll back: the source producer is paused (or its state cannot be read) and whose pause it "
    ++ "is is unknown (a pause or resume of this ceremony was interrupted, or a resume was followed by a "
    ++ "paused read). This ceremony never resumes it on its own authority: check the producer, then release "
    ++ "it explicitly with `pulse-cutover rollback --force-stranded --i-understand`. Nothing was changed."

abbrev operator_reason : String
operator_reason = "operator rollback (pulse-cutover rollback)"

module _ ⦃J : Json⦄ ⦃H : Host⦄ where
  open J use {Value, text, flag, object}
  open H use {cfg}

  -- An older agent's ownership is durable before anything else is done.
  unfoldable pub ensure_legacy_takeover : String → Action Unit
  ensure_legacy_takeover command = do
    pending ← gets (λ m. m.legacy_takeover_pending)
    if not pending then pure tt else do
      paused ← gets (λ m. m.legacy_paused)
      froze ← gets (λ m. m.legacy_froze)
      r ← attempt (
          evidence (
            ("legacy_takeover", object (("paused", flag paused) ∷ ("froze", flag froze) ∷ []))
            ∷ []))
      on_result r (λ _. modify (λ m. record m { legacy_takeover_pending = false }))
          λ e. raise (
            "refusing to " ++ command
            ++ ": this journal was written by an older agent and the record fixing that agent's pause/freeze "
            ++ "ownership could not be written (" ++ e
            ++ "). Nothing was changed. Fix the journal's disk (space, permissions) and run the command "
            ++ "again. Journal: " ++ cfg.journal_path)

  unfoldable pub check_bindings : Action Unit
  check_bindings = do
    problem ← gets (λ m. H.binding_problem m.world)
    on_option problem (pure tt) raise

  -- A hook that a killed agent left running is stopped first.
  unfoldable pub stop_orphans : Action (List String)
  stop_orphans = do
    r ← attempt (ask H.kill_orphan_hooks)
    on_result r
        (λ killed.
          on_option killed (pure [])
            λ desc. do evidence (("orphan_hook_killed", text desc) ∷ []); pure (desc ∷ []))
        (λ e. do
          evidence (("orphan_hook_kill_error", text e) ∷ ("rollback_blocked", flag true) ∷ [])
          raise (
              "refusing to roll back: a hook left running by a killed agent could not be stopped ("
              ++ e ++ "). Nothing was rolled back. Stop that process group by hand, then re-run."))

  unfoldable pub rolled_back : Machine → Bool
  rolled_back m = is_aborted m.state && m.aborted_rollback_complete

  -- Where a pause that is not this ceremony's matters to the rollback.
  unfoldable pub pause_candidate : Machine → Bool
  pause_candidate m =
      is_producer cfg.mode
      && (not m.paused_by_us
          && ((m.pause_unknown
                || (m.writes_closed_by_us
                    && (is_some cfg.on_abort && not (step_done "on_abort" m))))
              && not (rolled_back m)))

  -- A failed read holds a pause of unknown ownership.
  abbrev pub is_held : Bool → Result Bool → Bool
  is_held unknown (ok paused) = paused
  is_held unknown (err e) = unknown

  unfoldable pub held_pause : Bool → Action Bool
  held_pause unknown = do
    candidate ← gets pause_candidate
    if not candidate then pure false else do
      r ← attempt (
          read_paused_retrying pause_read_retry_ms
            "checking the producer before an operator rollback")
      pure (is_held unknown r)

  -- Whether a held pause is to be released: only by the operator's explicit decision.
  unfoldable pub must_release : Bool → Action Bool
  must_release force_stranded = do
    unknown ← gets (λ m. m.pause_unknown)
    held ← held_pause unknown
    if not held
        then pure false
        else if force_stranded
        then pure true
        else raise (
            if unknown
            then unknown_pause_held
            else "refusing to roll back: " ++ external_pause_held ++ ". Nothing was changed.")

  -- The view that is overridden is journaled with the override.
  unfoldable pub override_guard : Action Unit
  override_guard = do
    view ← ask (λ w. let (v, w') = H.fleet_view w in (ok v, w'))
    evidence (
        ("resume_guard", text "overridden by the operator (--force-stranded --i-understand)")
        ∷ ("overridden_fleet_view", view)
        ∷ ("by", text cfg.operator)
        ∷ [])

  abbrev unsealed_refusal : String → String
  unsealed_refusal why =
      "refusing to roll back a STRANDED ceremony: " ++ why
      ++ ". The source producer could NOT be confirmed paused (UNSEALED): pause it by hand now. Nothing "
      ++ "else was changed."

  abbrev guard_refusal : State → String → String
  guard_refusal st why =
      "refusing to roll back a "
      ++ as_str st
      ++ " ceremony: "
      ++ why
      ++ ". Nothing was changed. If the fleet went LIVE, use `pulse-cutover join`; after a fleet-wide "
      ++ "decision to resume the old chain, re-run with --force-stranded --i-understand."

  -- A stranded or an aborted ceremony: the guard once.
  unfoldable pub guard_at_rest : State → Action Unit
  guard_at_rest st = do
    refused ← resume_guard
    on_option refused (pure tt) λ why. do
      sealed ← if is_stranded st then ensure_source_paused else pure true
      raise (if sealed then guard_refusal st why else unsealed_refusal why)

  unfoldable pub operator_strand_message : String → Action String
  operator_strand_message why = do
    sealed ←
        if not (is_producer cfg.mode)
        then pure true
        else attempt producer_paused >>= λ r. pure (is_ok_true r)
    pure (
        "refusing to resume the old chain: "
        ++ why
        ++ ". The node is now STRANDED ("
        ++ (if sealed
            then "sealed: producer paused, writes stay frozen"
            else "UNSEALED: the source producer could NOT be confirmed paused; pause it by hand now. Writes stay frozen")
        ++ "). If the fleet went LIVE use `pulse-cutover join`; after a fleet-wide decision to resume the old chain, re-run with --force-stranded --i-understand.")

  abbrev pub operator_requested : Record
  operator_requested = ("rollback_requested", flag true) ∷ ("by", text "operator_rollback") ∷ []

  -- Before the ceremony came to rest: the same two passes as the agent's own abort.
  unfoldable pub guard_mid_ceremony : State → Action Unit
  guard_mid_ceremony st = do
    refused ← guard_twice operator_requested operator_reason
    on_option refused (pure tt) λ why. do
      strand operator_reason
          (object (("by", text "operator_rollback") ∷ ("state_before", text (as_str st)) ∷ [])) why
      message ← operator_strand_message why
      raise message

  unfoldable pub guard_operator : Bool → Action Unit
  guard_operator force_stranded = do
    guarded ← gets operator_rollback_needs_guard
    st ← gets (λ m. m.state)
    if not guarded
        then pure tt
        else if force_stranded
        then override_guard
        else if is_stranded st || is_aborted st
        then guard_at_rest st
        else guard_mid_ceremony st
