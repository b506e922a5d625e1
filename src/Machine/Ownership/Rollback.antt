-- ===== src/Machine/Ownership/Rollback.antt =====
-- src/machine.rs: a rollback keeps the memory, the journal and the flags in step.
use pulse_cutover.Prelude.{
  String, Bool, true, false, ◌≡◌, refl, ap, List, [], ◌∷◌, Option, Bool-cases, inl, inr, subst,
  ◌==◌,
}
use pulse_cutover.Json.{Json, BuildLaws, entry}
use pulse_cutover.State.{aborted}
use pulse_cutover.Journal.Episodes.{PauseEvent, resume, pause_episodes}
use pulse_cutover.Journal.Replay.Effects.{event_if}
use pulse_cutover.Machine.Exec.{Result, ok, err, lift, modify, ◌>>=◌, ◌>>◌}
use pulse_cutover.Machine.Exec.Along.{Kept-Preorder, Along-gets, Along-tested}
use pulse_cutover.Machine.Exec.Ensures.{
  Ensures, Ensures-bind, Ensures-Along, Ensures-rest, Ensures-attempt, Post-any,
}
use pulse_cutover.Machine.Host.{Host, Line, evidence_line, moved_aside}
use pulse_cutover.Machine.Core.{
  Machine, push, call, append, mark_line, evidence, enter, push_event, push_pause_event,
  current_episode,
}
use pulse_cutover.Machine.Admission.Release.{step_done, add_step}
use pulse_cutover.Machine.Steps.{Progress, Field, key, record_of, mark_step, unstage, revert}
use pulse_cutover.Machine.Rollback.Reverts.{
  close_episode, resume_own_pause, revert_producer, restart_source, revert_api, step_record,
}
use pulse_cutover.Machine.Rollback.Reopen.{conclude, withhold, reopen, reopen_checked, finish}
use pulse_cutover.Machine.Rollback.{seal_writes, rollback_steps}
use pulse_cutover.Machine.Ownership.{marks, entry_of, pauses_of, standing}
use pulse_cutover.Machine.Ownership.Silence.{
  silent, silent_cons, unread, only_step, Says, Says-step,
}
use pulse_cutover.Machine.Ownership.Quiet.{evidence-Says}
use pulse_cutover.Machine.Ownership.Law.{
  SoundAt, Keeps, Keeps-Quiet, keeps_rules, call-Keeps, enter-Keeps, pushed-Sound,
}
use pulse_cutover.Machine.Ownership.Calls.{gate-Keeps, read_paused-Keeps, writes_may_reopen-Keeps}
use pulse_cutover.Machine.Ownership.Resume.{Ours, src_resume-Ensures}
use pulse_cutover.Machine.Ownership.Admission.{
  hook-Keeps, add_step-Keeps, release_admission-Keeps, strand-Keeps,
}

module _ ⦃J : Json⦄ ⦃H : Host⦄ where
  open J use {Value, text, flag, number}

  module _ (laws : BuildLaws J) where
    Says-closed : (episode : Value) → Says laws (step_record episode) (resume ∷ [])
    unfolding only_step entry
    Says-closed episode = Says-step laws (step_record episode) "resume" refl refl refl

    unread-key : (f : Field) → unread laws (key f) ≡ true
    unfolding unread key
    unread-key Field.reason = refl
    unread-key Field.auto_rollback = refl
    unread-key Field.rollback_performed = refl
    unread-key Field.by = refl
    unread-key Field.force_after_ignite = refl
    unread-key Field.ignition_started = refl
    unread-key Field.steps_already_done = refl
    unread-key Field.source_producer_resumed = refl
    unread-key Field.source_producer_resume_error = refl
    unread-key Field.source_restarted = refl
    unread-key Field.source_restart_error = refl
    unread-key Field.source_stopped_no_start_cmd = refl
    unread-key Field.hyperion_flip_reverted = refl
    unread-key Field.hyperion_flip_revert_error = refl
    unread-key Field.flip_reverted = refl
    unread-key Field.flip_revert_error = refl
    unread-key Field.source_chain_untouched = refl
    unread-key Field.reverts_ok = refl

    silent-record_of : (fs : List (Field × Value)) → silent laws (record_of fs) ≡ true
    unfolding record_of
    silent-record_of [] = unfold silent in unfold entry in refl
    silent-record_of ((f, v) ∷ fs) =
        silent_cons laws (record_of fs) (key f) v (unread-key f) (silent-record_of fs)

  module _ (laws : BuildLaws J) {before : List PauseEvent} where
    step-Keeps :
        (name : String)
        → name == "resume" ≡ false
        → Keeps before (evidence (("rollback_step", text name) ∷ ("ok", flag true) ∷ []))
    unfolding only_step entry
    step-Keeps name h =
        let s =
          Says-step laws (("rollback_step", text name) ∷ ("ok", flag true) ∷ []) name refl refl
            refl in
        Keeps-Quiet _ (evidence-Says laws _ (subst (Says laws _) (ap (λ b. event_if b resume) h) s))

    pub mark_step-Keeps : (name : String) → name == "resume" ≡ false → Keeps before (mark_step name)
    unfolding mark_step
    mark_step-Keeps name h = search (keeps_rules, step-Keeps, add_step-Keeps)

    moved-Keeps : (to : String) → Keeps before (call (H.rename_staged to) (moved_aside to))
    unfolding marks
    moved-Keeps to = call-Keeps (H.rename_staged to) (moved_aside to) λ r t. refl

    pub unstage-Keeps : (any : Bool) (o : Progress Value) → Keeps before (unstage any o)
    unfolding unstage silent entry
    unstage-Keeps any o = search (keeps_rules, gate-Keeps, moved-Keeps) depth 40 fits 4000

    revert-Keeps :
        (step : String) (done error : Field) (what : String) (cmd : Option String)
        (p : Progress Value)
        → step == "resume" ≡ false
        → Keeps before (revert step done error what cmd p)
    unfolding revert
    revert-Keeps step done error what cmd p h =
        search (keeps_rules, hook-Keeps, mark_step-Keeps) depth 40 fits 4000

    restart_source-Keeps : (p : Progress Value) → Keeps before (restart_source p)
    unfolding restart_source
    restart_source-Keeps p = search (keeps_rules, revert-Keeps) depth 40 fits 4000

    revert_api-Keeps : (p : Progress Value) → Keeps before (revert_api p)
    unfolding revert_api
    revert_api-Keeps p = search (keeps_rules, revert-Keeps, restart_source-Keeps) depth 40 fits 4000

    -- The record of a resume, the step, and the event.
    closed-Sound :
        (m : Machine) (w : H.World) (l : Line) (done : Result Unit)
        → pauses_of (entry_of l) ≡ resume ∷ []
        → SoundAt before m
        → SoundAt before
            ((lift done >> (modify (add_step "resume") >> push_pause_event resume))
              (record m { world = w; trace = mark_line l done ∷ m.trace })).1
    unfolding push_pause_event ◌>>=◌ marks push_event step_done pause_episodes
    closed-Sound m w l (err x) p h = record {
      derived = h.derived;
      recalled = h.recalled;
      lawful = h.lawful;
    }
    closed-Sound m w l (ok done) p h = elim (Bool-cases (step_done "resume" m)) [
      | inl e ↦ rw e (pushed-Sound laws m w l resume p h)
      | inr e ↦ rw e (
          pushed-Sound laws (record m { rollback_steps_done = push "resume" m.rollback_steps_done })
            w l resume p (record { derived = h.derived; recalled = h.recalled; lawful = h.lawful }))
    ]

    close_episode-Keeps : (episode : Value) → Keeps before (close_episode episode)
    unfolding close_episode evidence append call entry_of ◌>>=◌
    close_episode-Keeps episode = record {
      at = λ m h.
          let l = evidence_line m.state (step_record episode) in
          let a = H.append l m.world in
          closed-Sound m a.1 l a.0 ((Says-closed laws episode).read (entry_of l) refl) h;
    }

    resume_own_pause-Ensures :
        (p : Progress Value)
        → Ensures
            (λ m. Ours before (standing m))
            (SoundAt before)
            (SoundAt before)
            (resume_own_pause p)
    unfolding resume_own_pause
    resume_own_pause-Ensures p =
        Ensures-bind _ _ (Ensures-Along _ (λ s h. h.0) (Along-gets current_episode)) λ episode.
          Ensures-bind _ _ (Ensures-attempt _ (src_resume-Ensures laws before "rollback")) λ r.
            Ensures-rest _ (λ s h. h) (search (keeps_rules, close_episode-Keeps) depth 30 fits 4000)

    revert_producer-Keeps : (p : Progress Value) → Keeps before (revert_producer p)
    unfolding revert_producer
    revert_producer-Keeps p =
        Along-tested (λ m. m.paused_by_us) _ _
          (λ m o h.
            Post-any (SoundAt before) (resume_own_pause p m)
              ((resume_own_pause-Ensures p).at m (h, o)))
          (search keeps_rules depth 30)

    conclude-Keeps : (a b : Bool) (p : Progress Value) → Keeps before (conclude a b p)
    unfolding conclude silent entry
    conclude-Keeps a b p = search (keeps_rules, unstage-Keeps) depth 40 fits 4000

    withhold-Keeps :
        (why : String) (b : Bool) (p : Progress Value) → Keeps before (withhold why b p)
    unfolding withhold silent entry
    withhold-Keeps why b p = search (keeps_rules, unstage-Keeps) depth 40 fits 4000

    reopen-Keeps : (a : Bool) (o : Option String) (p : Progress Value) → Keeps before (reopen a o p)
    unfolding reopen silent entry
    reopen-Keeps a o p =
        search (keeps_rules, release_admission-Keeps, hook-Keeps, mark_step-Keeps) depth 40 fits
          4000

    checked-Keeps :
        (a b c : Bool) (o : Option String) (p : Progress Value)
        → Keeps before (reopen_checked a b c o p)
    unfolding reopen_checked
    checked-Keeps a b c o p =
        search (keeps_rules, reopen-Keeps, conclude-Keeps, withhold-Keeps, read_paused-Keeps) depth
          40 fits 4000

    entered-Keeps : (fs : List (Field × Value)) → Keeps before (enter aborted (record_of fs))
    entered-Keeps fs = enter-Keeps laws aborted (record_of fs) (silent-record_of laws fs)

    finish-Keeps :
        (a b : Bool) (o : Option String) (p : Progress Value) → Keeps before (finish a b o p)
    unfolding finish silent entry
    finish-Keeps a b o p =
        search (keeps_rules, entered-Keeps, conclude-Keeps, checked-Keeps) depth 60 fits 6000

    seal_writes-Keeps :
        (reason : String) (detail : Value) (why : String)
        → Keeps before (seal_writes reason detail why)
    unfolding seal_writes silent entry
    seal_writes-Keeps reason detail why = search (keeps_rules, strand-Keeps) depth 40 fits 4000

    -- A rollback, performed or not, keeps the memory, the journal and the flags in step: every resume RPC
    -- in its trace comes right after the intent to resume a pause that was this ceremony's own.
    pub rollback_steps-Keeps :
        (reason : String) (detail : Value) (a b : Bool)
        → Keeps before (rollback_steps reason detail a b)
    unfolding rollback_steps
    rollback_steps-Keeps reason detail a b =
        search
          (
            keeps_rules, revert_producer-Keeps, revert_api-Keeps, writes_may_reopen-Keeps,
            finish-Keeps, seal_writes-Keeps,
          )
          depth 60 fits 6000
