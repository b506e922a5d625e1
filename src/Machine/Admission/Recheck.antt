-- ===== src/Machine/Admission/Recheck.antt =====
-- src/machine.rs: the seal that the waits after the pause hold: the lock read again, the pause made again.
use pulse_cutover.Prelude.{
  ℕ, ◌+◌, String, Bool, true, false, not, ◌&&◌, ◌||◌, Option, none, some, List, [], ◌∷◌, length,
  if◌then◌else◌, is_none, map_or, ltb, leb,
}
use Prim.Native.String.{◌++◌}
use pulse_cutover.Json.{Json}
use pulse_cutover.Machine.Exec.{
  Result, ok, err, pure, raise, gets, modify, attempt, ◌>>=◌, ◌>>◌, when, on_option,
}
use pulse_cutover.Machine.Host.{Host, Record}
use pulse_cutover.Machine.Core.{Action, ask, evidence, is_producer, push}
use pulse_cutover.Machine.Halt.{shadow_mutation_gate, shadow_producer_gate}
use pulse_cutover.Machine.Reads.{is_ok_true, is_ok_false, read_paused, src_retry, with_tick}
use pulse_cutover.Machine.Pause.{src_pause}
use pulse_cutover.Machine.Admission.{
  sentinel, same_texts, show_actors, to_option, is_ok, texts, actor_whitelist, set_actor_whitelist,
}

module _ ⦃J : Json⦄ ⦃H : Host⦄ where
  open J use {Value, null, text, flag, number, array, object}
  open H use {cfg}

  -- The lock is put back, and read back.
  unfoldable pub reapply_lock : Action Unit
  reapply_lock = do
    shadow_mutation_gate "re-applying the admission lock"
    shadow_producer_gate "re-applying the admission lock"
    src_retry "set_whitelist_blacklist" (set_actor_whitelist sentinel)
    read ← src_retry "get_whitelist_blacklist" actor_whitelist
    on_option read (pure tt) λ l.
        if same_texts l sentinel
        then pure tt
        else raise ("read back " ++ show_actors l ++ " after re-applying")

  abbrev fields_of : Result Unit → Record
  fields_of (ok done) = ("reapplied", flag true) ∷ []
  fields_of (err e) = ("reapply_error", text e) ∷ []

  abbrev lost_fields : String → Value → Value → Record → Record
  lost_fields at head found more = ("at", text at) ∷ ("head", head) ∷ ("found", found) ∷ more

  abbrev number_or_null : Option ℕ → Value
  number_or_null o = map_or null number o

  abbrev pub lost_record : Record → Bool → Record
  lost_record rec reapplied =
      if reapplied
      then ("admission_lock_lost", object rec) ∷ ("admission_lock_reapplied", flag true) ∷ []
      else ("admission_lock_lost", object rec) ∷ []

  -- The record of a lost lock: the first twenty are journaled.
  unfoldable pub note_loss : Record → Bool → Action Unit
  note_loss rec reapplied = do
    losses ← gets (λ m. m.admission_lock_losses)
    if ltb (length losses) 20
        then evidence (lost_record rec reapplied)
          >> modify (λ m. record m { admission_lock_losses = push rec m.admission_lock_losses })
        else when reapplied (modify (λ m. record m { admission_lock_applied = true }))

  -- What a read that does not show the lock found: nothing for one that does, or that cannot tell.
  abbrev found_instead : Result (Option (List String)) → Option Value
  found_instead (ok none) = none
  found_instead (ok (some l)) = if same_texts l sentinel then none else some (texts l)
  found_instead (err e) = some (object (("unreadable", text e) ∷ []))

  unfoldable pub head_or : Option ℕ → Action (Option ℕ)
  head_or (some h) = pure (some h)
  head_or none = do r ← attempt (ask H.source_head); pure (to_option r)

  unfoldable pub lose_lock : String → Option ℕ → Bool → Value → Action Record
  lose_lock at known reapply found = do
    head ← head_or known
    if not reapply
        then note_loss (lost_fields at (number_or_null head) found []) false
          >> pure (lost_fields at (number_or_null head) found [])
        else do
          res ← attempt reapply_lock
          when (is_ok res) (modify (λ m. record m { admission_lock_applied = true }))
          let rec = lost_fields at (number_or_null head) found (fields_of res)
          note_loss rec (is_ok res)
          pure rec

  unfoldable pub check_admission_lock_tick : String → Option ℕ → Bool → Action (Option Record)
  check_admission_lock_tick at known reapply = do
    lock ← gets (λ m. m.admission_lock)
    if not cfg.admission_lock || is_none lock then pure none else do
      read ← attempt (src_retry "get_whitelist_blacklist" actor_whitelist)
      on_option (found_instead read) (pure none)
          λ found. do rec ← lose_lock at known reapply found; pure (some rec)

  unfoldable pub check_admission_lock : String → Option ℕ → Bool → Action (Option Record)
  check_admission_lock at known reapply = with_tick (check_admission_lock_tick at known reapply)

  abbrev unpaused_record : String → Option ℕ → Option ℕ → Result Bool → Record
  unpaused_record at head at_pause r =
      (
        "source_unpaused",
        object (
            ("at", text at)
            ∷ ("head", number_or_null head)
            ∷ ("head_at_pause", number_or_null at_pause)
            ∷ ("repaused", flag (is_ok_true r))
            ∷ []),
      )
      ∷ []

  -- A source that produces although this ceremony paused it is paused again.
  unfoldable pub pause_again : String → Action Unit
  pause_again at = do
    r ← attempt (src_pause >> read_paused)
    head ← attempt (ask H.source_head)
    modify (λ m. record m { unpaused_seen = m.unpaused_seen + 1 })
    seen ← gets (λ m. m.unpaused_seen)
    at_pause ← gets (λ m. m.head_at_pause)
    when (leb seen 20) (evidence (unpaused_record at (to_option head) at_pause r))

  unfoldable pub hold_source_sealed_tick : String → Action Unit
  hold_source_sealed_tick at = do
    joining ← gets (λ m. m.joining)
    ever ← gets (λ m. m.ever_paused_by_us)
    if not (is_producer cfg.mode) || (joining || not ever) then pure tt else do
      unknown ← gets (λ m. m.pause_unknown)
      adopted ← gets (λ m. m.pause_adopted)
      when (not unknown && not adopted)
          do r ← attempt read_paused; when (is_ok_false r) (pause_again at)
      check_admission_lock at none true
      pure tt

  unfoldable pub hold_source_sealed : String → Action Unit
  hold_source_sealed at = with_tick (hold_source_sealed_tick at)
