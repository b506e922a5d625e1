-- ===== src/Machine/Admission.antt =====
-- src/machine.rs: the write freeze, and the admission lock of the source producer.
pub mod Recheck
pub mod Release
use pulse_cutover.Prelude.{
  ℕ, ◌+◌, String, Bool, true, false, not, ◌&&◌, ◌||◌, Option, none, some, List, [], ◌∷◌, map,
  length, if◌then◌else◌, is_some, is_none, or_else, map_or, unwrap_or, contains, ltb, leb, ◌==◌,
}
use Prim.Native.String.{◌++◌}
use pulse_cutover.Prelude.Decimal.{join}
use pulse_cutover.Json.{Json}
use pulse_cutover.Machine.Exec.{
  Exec, Result, ok, err, pure, raise, lift, gets, modify, attempt, ◌>>=◌, ◌>>◌, when, on_result,
  on_option,
}
use pulse_cutover.Machine.Host.{Host, Record, saw_whitelist, set_whitelist}
use pulse_cutover.Machine.Core.{Machine, Action, call, ask, evidence, is_producer, push}
use pulse_cutover.Machine.Halt.{shadow_mutation_gate, shadow_producer_gate, hook}
use pulse_cutover.Machine.Reads.{is_ok_true, is_ok_false, read_paused, src_retry, with_tick}
use pulse_cutover.Machine.Pause.{src_pause}

-- `config::ADMISSION_LOCK_SENTINEL`, alone in the list.
abbrev pub sentinel_name : String
sentinel_name = "pulse.frozen1"

abbrev pub sentinel : List String
sentinel = sentinel_name ∷ []

unfoldable pub same_texts : List String → List String → Bool
same_texts [] [] = true
same_texts (a ∷ xs) (b ∷ ys) = (a == b) && same_texts xs ys
same_texts _ _ = false

-- A list of actors as an error names it.
abbrev pub show_actors : List String → String
show_actors l = "[" ++ join ", " l ++ "]"

abbrev pub to_option : {A : Type 0} → Result A → Option A
to_option (ok a) = some a
to_option (err e) = none

abbrev pub is_ok : {A : Type 0} → Result A → Bool
is_ok (ok a) = true
is_ok (err e) = false

-- `map_err` of a context.
abbrev pub with_context : {A : Type 0} → String → Result A → Result A
with_context what (ok a) = ok a
with_context what (err e) = err (what ++ ": " ++ e)

module _ ⦃J : Json⦄ ⦃H : Host⦄ where
  open J use {Value, null, text, flag, number, array, object}
  open H use {cfg}

  abbrev pub texts : List String → Value
  texts l = array (map text l)

  unfoldable pub freeze_writes : String → Action String
  freeze_writes cmd = do
    closed ← gets (λ m. m.writes_closed_by_us)
    when (not closed) do
      evidence (("side_effect", text "write_freeze") ∷ [])
      modify (λ m. record m { writes_closed_by_us = true })
    hook cmd

  unfoldable pub actor_whitelist : Action (Option (List String))
  actor_whitelist = call H.actor_whitelist saw_whitelist

  unfoldable pub set_actor_whitelist : List String → Action Unit
  set_actor_whitelist l = call (H.set_actor_whitelist l) (set_whitelist l)

  abbrev already_locked : String
  already_locked =
      "the producer's actor whitelist is already [" ++ sentinel_name
      ++ "] but this journal never set it: another ceremony's "
      ++ "admission lock may still be in place; restore the original list by hand (set_whitelist_blacklist)"

  abbrev lock_record : List String → Record
  lock_record original =
      ("side_effect", text "admission_lock")
      ∷ ("sentinel", text sentinel_name)
      ∷ ("original_actor_whitelist", texts original)
      ∷ []

  -- The original list, recorded before the first attempt to set the lock.
  unfoldable pub record_original : Action Unit
  record_original = do
    lock ← gets (λ m. m.admission_lock)
    when (is_none lock) do
      r ← attempt actor_whitelist
      read ← lift (with_context "reading the producer's actor whitelist" r)
      let original = unwrap_or read []
      if same_texts original sentinel then raise already_locked else do
        evidence (lock_record original)
        modify (λ m. record m { admission_lock = some original })

  unfoldable pub confirm_lock : Action Value
  confirm_lock = do
    r ← attempt actor_whitelist
    read ← lift (with_context "confirming the admission lock" r)
    on_option read (pure (text "not readable by this ChainOps")) λ l.
        if same_texts l sentinel
        then pure (flag true)
        else raise (
            "set_whitelist_blacklist answered but the producer's actor whitelist is "
            ++ show_actors l
            ++ ", not ["
            ++ sentinel_name
            ++ "]")

  abbrev queue_of : Result (Option Value) → Value
  queue_of (ok (some q)) = q
  queue_of (ok none) = null
  queue_of (err e) = object (("error", text e) ∷ [])

  unfoldable pub lock_admission : Action Record
  lock_admission = do
    shadow_mutation_gate "locking transaction admission on the source producer"
    shadow_producer_gate "locking transaction admission on the source producer"
    record_original
    set ← attempt (set_actor_whitelist sentinel)
    lift (with_context "set_whitelist_blacklist" set)
    modify (λ m. record m { admission_lock_applied = true })
    confirmed ← confirm_lock
    queue ← attempt (ask H.unapplied_transactions)
    let rec =
        ("admission_lock_ack", confirmed)
        ∷ ("sentinel", text sentinel_name)
        ∷ ("unapplied_at_lock", queue_of queue)
        ∷ []
    evidence rec
    pure rec
