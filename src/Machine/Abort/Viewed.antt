-- ===== src/Machine/Abort/Viewed.antt =====
-- src/machine.rs, `abort`: the views of the fleet that an abort which undoes something has read.
use pulse_cutover.Prelude.{
  ◌≡◌, ◌≢◌, refl, ◌⊎◌, inl, inr, String, true, Option, none, some, is_some, arith,
}
use pulse_cutover.Json.{Json}
use pulse_cutover.Machine.Exec.{Result, ok, err}
use pulse_cutover.Machine.Exec.Returns.{bind_ok}
use pulse_cutover.Machine.Host.{Host}
use pulse_cutover.Machine.Core.{Machine}
use pulse_cutover.Machine.Guard.{needs_resume_guard, has_event, resume_guard}
use pulse_cutover.Machine.Guard.Safe.{SafeView, resume_guard-SafeView}
use pulse_cutover.Machine.Abort.{requested, withdraw_report, ask_again, abort_guarded}
use pulse_cutover.Machine.Abort.Ends.{abort_guarded_refused}
use pulse_cutover.Machine.Effects.{undoes, done}

clear_or_not : (r : Result (Option String)) → (r ≡ ok none) ⊎ (r ≢ ok none)
clear_or_not (ok none) = inl refl
clear_or_not (ok (some why)) = inr (λ e. cc e)
clear_or_not (err e) = inr (λ p. cc p)

module _ ⦃J : Json⦄ ⦃H : Host⦄ where
  open J use {Value}

  has_id : (m : Machine) → needs_resume_guard m ≡ true → is_some H.cfg.event_id ≡ true
  unfolding needs_resume_guard has_event
  has_id m h = ground (arith, h)

  -- The guarded part of an abort, of a coordinated producer that has frozen, resumes nothing, runs no hook
  -- but the paging one and moves no file, unless the relay showed it two views of the fleet in which it is
  -- safe to resume: one at first, and one after this node's report was withdrawn. Each view has a memory
  -- that knows all that the machine remembered before, and its flag for a signed abort is set exactly where
  -- the node has a tombstone of the event or the relay serves the coordinator's signed abort.
  pub abort_guarded_unsafe :
      (reason : String) (detail : Value) (m : Machine)
      → needs_resume_guard m ≡ true
      → ¬ (SafeView m × SafeView (withdraw_report requested reason (resume_guard m).1).1)
      → done undoes (abort_guarded reason detail m).1 ≡ done undoes m
  unfolding ask_again
  abort_guarded_unsafe reason detail m h unsafe = elim (clear_or_not (resume_guard m).0) [
    | inr n ↦ abort_guarded_refused reason detail m h (inl n)
    | inl first ↦
        let s = (resume_guard m).1 in
        elim (clear_or_not (ask_again requested reason s).0) [
          | inr n ↦ abort_guarded_refused reason detail m h (inr n)
          | inl second ↦
              let (u, waited, again) = bind_ok _ _ s none second in
              absurd (
                unsafe (
                  resume_guard-SafeView m (has_id m h) first,
                  resume_guard-SafeView _ (has_id m h) again,
                ))
        ]
  ]
