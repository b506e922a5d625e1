-- ===== src/Machine/Ownership/Calls.antt =====
-- src/machine.rs: the reads of the producer and the pause keep the memory, the journal and the flags in step.
use pulse_cutover.Prelude.{
  ℕ, zero, suc, String, Bool, true, false, refl, List, [], ◌∷◌, Option, if◌then◌else◌,
}
use pulse_cutover.Json.{Json, BuildLaws, entry}
use pulse_cutover.Journal.Episodes.{PauseEvent, pause, ack, resume}
use pulse_cutover.Machine.Exec.Along.{Kept-Preorder}
use pulse_cutover.Machine.Host.{Host, saw_producer, paused}
use pulse_cutover.Machine.Core.{Action, call, producer_paused}
use pulse_cutover.Machine.Halt.{shadow_mutation_gate, shadow_producer_gate}
use pulse_cutover.Machine.Reads.{
  read_paused, retry_read, read_paused_retrying, stop_point, retry_call, src_retry, with_tick,
  journal_pause,
}
use pulse_cutover.Machine.Pause.{
  adopt_external_pause, acknowledge_pause, call_pause, src_pause, writes_may_reopen, confirm_resume,
  settle_resume,
}
use pulse_cutover.Machine.Ownership.{marks}
use pulse_cutover.Machine.Ownership.Silence.{
  silent, only_effect, Says, Says-effect, Says-ack, Says-released,
}
use pulse_cutover.Machine.Ownership.Gates.{shadow_mutation_gate-Quiet, shadow_producer_gate-Quiet}
use pulse_cutover.Machine.Ownership.Law.{
  Keeps, Keeps-Quiet, keeps_rules, call-Keeps, journal_pause-Keeps,
}

module _ ⦃J : Json⦄ ⦃H : Host⦄ where
  open J use {Value, text, flag, number}

  module _ (laws : BuildLaws J) where
    Says-adopted :
        (unknown : Bool) (episode : ℕ)
        → Says laws
            (("side_effect", text "source_pause")
              ∷ ("adopted", flag true)
              ∷ ("by", text (if unknown then "unknown" else "external"))
              ∷ ("pause_ownership_unknown", flag unknown)
              ∷ ("episode", number episode)
              ∷ [])
            (pause false ∷ [])
    unfolding only_effect entry
    Says-adopted unknown episode =
        Says-effect laws _ "source_pause" true refl refl (rw (laws.as_bool-flag true) refl)

    Says-own :
        (episode : ℕ)
        → Says laws
            (("side_effect", text "source_pause") ∷ ("episode", number episode) ∷ [])
            (pause true ∷ [])
    unfolding only_effect entry
    Says-own episode = Says-effect laws _ "source_pause" false refl refl refl

  module _ (laws : BuildLaws J) {before : List PauseEvent} where
    pub gate-Keeps : (what : String) → Keeps before (shadow_mutation_gate what)
    gate-Keeps what = Keeps-Quiet _ (shadow_mutation_gate-Quiet laws what)

    pub producer_gate-Keeps : (what : String) → Keeps before (shadow_producer_gate what)
    producer_gate-Keeps what = Keeps-Quiet _ (shadow_producer_gate-Quiet laws what)

    pub producer_paused-Keeps : Keeps before producer_paused
    unfolding producer_paused marks
    producer_paused-Keeps = call-Keeps H.producer_paused saw_producer λ r t. refl

    released-Keeps :
        (episode : ℕ)
        → Keeps before (
            journal_pause
              (("own_pause_released_externally", flag true) ∷ ("episode", number episode) ∷ [])
              resume)
    released-Keeps episode = journal_pause-Keeps laws _ resume (Says-released laws (number episode))

    pub read_paused-Keeps : Keeps before read_paused
    unfolding read_paused
    read_paused-Keeps =
        search (keeps_rules, producer_paused-Keeps, released-Keeps) depth 30 fits 4000

    retry_read-Keeps :
        (fuel start window : ℕ) (what : String) (failures : ℕ) (last : Option ℕ)
        → Keeps before (retry_read fuel start window what failures last)
    unfolding retry_read silent entry
    retry_read-Keeps zero start window what failures last = search keeps_rules
    retry_read-Keeps (suc fuel) start window what failures last =
        search (keeps_rules, read_paused-Keeps, retry_read-Keeps fuel) depth 30 fits 4000

    pub read_paused_retrying-Keeps :
        (window : ℕ) (what : String) → Keeps before (read_paused_retrying window what)
    unfolding read_paused_retrying
    read_paused_retrying-Keeps window what =
        search (keeps_rules, retry_read-Keeps) depth 30 fits 4000

    pub stop_point-Keeps : Keeps before stop_point
    unfolding stop_point silent entry
    stop_point-Keeps = search keeps_rules depth 30 fits 4000

    module _ {A : Type 0} (f : Action A) (keeps : Keeps before f) where
      retry_call-Keeps :
          (fuel : ℕ) (what : String) (start bound backoff attempts : ℕ) (last : String)
          → Keeps before (retry_call fuel what f start bound backoff attempts last)
      unfolding retry_call silent entry
      retry_call-Keeps zero what start bound backoff attempts last = search keeps_rules
      retry_call-Keeps (suc fuel) what start bound backoff attempts last =
          search (keeps_rules, stop_point-Keeps, retry_call-Keeps fuel) depth 30 fits 4000

      pub src_retry-Keeps : (what : String) → Keeps before (src_retry what f)
      unfolding src_retry silent entry
      src_retry-Keeps what = search (keeps_rules, retry_call-Keeps) depth 30 fits 4000

      pub with_tick-Keeps : Keeps before (with_tick f)
      unfolding with_tick
      with_tick-Keeps = search keeps_rules depth 30 fits 4000

    adopted-Keeps :
        (unknown : Bool) (episode : ℕ)
        → Keeps before (
            journal_pause
              (("side_effect", text "source_pause")
                ∷ ("adopted", flag true)
                ∷ ("by", text (if unknown then "unknown" else "external"))
                ∷ ("pause_ownership_unknown", flag unknown)
                ∷ ("episode", number episode)
                ∷ [])
              (pause false))
    adopted-Keeps unknown episode =
        journal_pause-Keeps laws _ (pause false) (Says-adopted laws unknown episode)

    own-Keeps :
        (episode : ℕ)
        → Keeps before (
            journal_pause
              (("side_effect", text "source_pause") ∷ ("episode", number episode) ∷ [])
              (pause true))
    own-Keeps episode = journal_pause-Keeps laws _ (pause true) (Says-own laws episode)

    acked-Keeps :
        (episode : ℕ) → Keeps before (journal_pause (("source_pause_ack", number episode) ∷ []) ack)
    acked-Keeps episode = journal_pause-Keeps laws _ ack (Says-ack laws (number episode))

    pub adopt_external_pause-Keeps : Keeps before adopt_external_pause
    unfolding adopt_external_pause
    adopt_external_pause-Keeps =
        search (keeps_rules, read_paused_retrying-Keeps, adopted-Keeps) depth 30 fits 4000

    acknowledge_pause-Keeps : Keeps before acknowledge_pause
    unfolding acknowledge_pause
    acknowledge_pause-Keeps =
        search (keeps_rules, read_paused_retrying-Keeps, acked-Keeps) depth 30 fits 4000

    paused-Keeps : Keeps before (call H.pause paused)
    unfolding marks
    paused-Keeps = call-Keeps H.pause paused λ r t. refl

    call_pause-Keeps : Keeps before call_pause
    unfolding call_pause
    call_pause-Keeps =
        search (keeps_rules, src_retry-Keeps, paused-Keeps, acknowledge_pause-Keeps) depth 30 fits
          4000

    pub src_pause-Keeps : Keeps before src_pause
    unfolding src_pause
    src_pause-Keeps =
        search
          (
            keeps_rules, gate-Keeps, producer_gate-Keeps, adopt_external_pause-Keeps, own-Keeps,
            call_pause-Keeps,
          )
          depth 30 fits 4000

    pub writes_may_reopen-Keeps : (retry : Bool) → Keeps before (writes_may_reopen retry)
    unfolding writes_may_reopen
    writes_may_reopen-Keeps retry =
        search (keeps_rules, read_paused_retrying-Keeps, read_paused-Keeps) depth 30 fits 4000

    pub confirm_resume-Keeps : (episode : ℕ) → Keeps before (confirm_resume episode)
    unfolding confirm_resume silent entry
    confirm_resume-Keeps episode =
        search (keeps_rules, read_paused_retrying-Keeps) depth 30 fits 4000

    pub settle_resume-Keeps : (episode : ℕ) (e : String) → Keeps before (settle_resume episode e)
    unfolding settle_resume silent entry
    settle_resume-Keeps episode e =
        search (keeps_rules, read_paused_retrying-Keeps) depth 30 fits 4000
