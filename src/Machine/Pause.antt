-- ===== src/Machine/Pause.antt =====
-- src/machine.rs: the pause and the resume of the source producer.
use pulse_cutover.Prelude.{
  ℕ, String, Bool, true, false, not, ◌&&◌, ◌||◌, Option, none, some, [], ◌∷◌, if◌then◌else◌,
}
use Prim.Native.String.{◌++◌}
use pulse_cutover.Json.{Json}
use pulse_cutover.Journal.Episodes.{pause, ack, resume_intent}
use pulse_cutover.Machine.Exec.{pure, raise, gets, modify, attempt, ◌>>=◌, ◌>>◌, when, on_result}
use pulse_cutover.Machine.Host.{Host, Record, paused, resumed}
use pulse_cutover.Machine.Core.{Action, call, evidence, next_episode, current_episode, is_producer}
use pulse_cutover.Machine.Halt.{shadow_mutation_gate, shadow_producer_gate}
use pulse_cutover.Machine.Reads.{
  is_ok_true, read_paused, read_paused_retrying, journal_pause, src_retry, pause_read_window_ms,
  pause_read_retry_ms,
}

abbrev pub resume_ignored : String
resume_ignored = "the resume RPC answered ok but the producer is still paused"

module _ ⦃J : Json⦄ ⦃H : Host⦄ where
  open J use {Value, text, flag, number}
  open H use {cfg}

  abbrev adopted_record : Bool → ℕ → Record
  adopted_record unknown episode =
      ("side_effect", text "source_pause")
      ∷ ("adopted", flag true)
      ∷ ("by", text (if unknown then "unknown" else "external"))
      ∷ ("pause_ownership_unknown", flag unknown)
      ∷ ("episode", number episode)
      ∷ []

  unfoldable pub adopt_external_pause : Action Bool
  adopt_external_pause = do
    ours ← gets (λ m. m.paused_by_us)
    if not (is_producer cfg.mode) || ours then pure false else do
      held ← read_paused_retrying pause_read_window_ms "checking who paused the source producer"
      if not held then pure false else do
        known ← gets (λ m. m.pause_adopted)
        when (not known) do
          episode ← gets next_episode
          unknown ← gets (λ m. m.pause_unknown)
          journal_pause (adopted_record unknown episode) (pause false)
        pure true

  -- An own intent becomes an own pause once a read has confirmed it.
  unfoldable pub acknowledge_pause : Action Unit
  acknowledge_pause = do
    r ← attempt (
        read_paused_retrying pause_read_retry_ms
          "confirming this ceremony's pause before acknowledging it")
    when (is_ok_true r) do
      episode ← gets current_episode
      journal_pause (("source_pause_ack", number episode) ∷ []) ack

  unfoldable pub call_pause : Action Unit
  call_pause = do
    src_retry "pause" (call H.pause paused)
    unknown ← gets (λ m. m.pause_unknown)
    tracked ← gets (λ m. m.acks_tracked)
    when (unknown && tracked) acknowledge_pause

  unfoldable pub src_pause : Action Unit
  src_pause = do
    shadow_mutation_gate "pausing the source producer"
    shadow_producer_gate "pausing the source producer"
    ours ← gets (λ m. m.paused_by_us)
    if ours then call_pause else do
      adopted ← adopt_external_pause
      if adopted then pure tt else do
        episode ← gets next_episode
        let intent = ("side_effect", text "source_pause") ∷ ("episode", number episode) ∷ []
        journal_pause intent (pause true)
        call_pause

  -- `Ok(None)` may reopen; the text is why writes stay frozen.
  unfoldable pub writes_may_reopen : Bool → Action (Option String)
  writes_may_reopen retry = do
    modify (λ m. record m { observed_paused = none })
    if not (is_producer cfg.mode) then pure none else do
      read ← attempt (
          if retry
          then read_paused_retrying pause_read_retry_ms
              "checking the source produces before reopening writes"
          else read_paused)
      on_result read
          (λ held. do
            modify (λ m. record m { observed_paused = some held })
            pure (if held then some "producer paused" else none))
          (λ e. pure (some ("producer state unknown (" ++ e ++ ")")))

  abbrev unknown_after_ok : ℕ → Record
  unknown_after_ok episode =
      ("source_resume_outcome_unknown", number episode)
      ∷ ("rpc", text "ok")
      ∷ ("producer_paused", flag true)
      ∷ []

  abbrev unread_after_ok : ℕ → String → Record
  unread_after_ok episode re =
      ("source_resume_outcome_unknown", number episode)
      ∷ ("rpc", text "ok")
      ∷ ("read_error", text re)
      ∷ []

  -- An `Ok` of the RPC is no proof: only a "producing" read is.
  unfoldable pub confirm_resume : ℕ → Action Unit
  confirm_resume episode = do
    read ←
        attempt
          (read_paused_retrying pause_read_retry_ms "confirming this ceremony's resume took effect")
    on_result read
        (λ held. if not held then pure tt else do
          evidence (unknown_after_ok episode)
          raise (resume_ignored ++ " (ownership of that pause is now unknown)"))
        (λ re. do
          evidence (unread_after_ok episode re)
          raise (
              "the resume RPC answered ok but whether the producer resumed cannot be read (" ++ re
              ++ ")"))

  abbrev unknown_after_error : ℕ → String → Record
  unknown_after_error episode e =
      ("source_resume_outcome_unknown", number episode)
      ∷ ("error", text e)
      ∷ ("producer_paused", flag true)
      ∷ []

  abbrev unread_after_error : ℕ → String → String → Record
  unread_after_error episode e re =
      ("source_resume_outcome_unknown", number episode)
      ∷ ("error", text e)
      ∷ ("read_error", text re)
      ∷ []

  -- A failed RPC is settled by a read; a paused producer does not say whose pause it is.
  unfoldable pub settle_resume : ℕ → String → Action Unit
  settle_resume episode e = do
    read ← attempt (read_paused_retrying pause_read_retry_ms "settling a resume RPC that failed")
    on_result read
        (λ held.
          if not held
          then evidence
              (("source_resume_applied_despite_error", text e) ∷ ("episode", number episode) ∷ [])
          else do
            evidence (unknown_after_error episode e)
            raise (e ++ " (the producer is paused: ownership of that pause is now unknown)"))
        (λ re. do
          evidence (unread_after_error episode e re)
          raise (e ++ " (and the producer state could not be read: whether it resumed is unknown)"))

  unfoldable pub src_resume : String → Action Unit
  src_resume what = do
    shadow_mutation_gate "resuming the source producer"
    shadow_producer_gate "resuming the source producer"
    episode ← gets current_episode
    let intent =
        ("side_effect", text "source_resume")
        ∷ ("episode", number episode)
        ∷ ("during", text what)
        ∷ []
    journal_pause intent resume_intent
    rpc ← attempt (call H.resume resumed)
    on_result rpc (λ _. confirm_resume episode) (λ e. settle_resume episode e)
