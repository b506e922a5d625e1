-- ===== src/Machine/Ownership/Resume.antt =====
-- src/machine.rs, `src_resume`: the resume of an own pause.
use pulse_cutover.Prelude.{ℕ, String, true, false, ◌≡◌, refl, sym, ap, ◌∙◌, List, [], ◌∷◌}
use pulse_cutover.Json.{Json, BuildLaws, entry}
use pulse_cutover.Journal.Episodes.{PauseEvent, resume_intent, Episodes}
use pulse_cutover.Machine.Exec.{Result, ok, err, lift, attempt, ◌>>=◌, ◌>>◌}
use pulse_cutover.Machine.Exec.Along.{Kept-Preorder, Along-gets, Along-on_result}
use pulse_cutover.Machine.Exec.Ensures.{
  Ensures, Post, Ensures-bind, Ensures-Along, Ensures-rest, Post-any,
}
use pulse_cutover.Machine.Host.{Host, Record, Line, evidence_line, wrote, resumed}
use pulse_cutover.Machine.Core.{
  Machine, call, append, mark_line, evidence, push_event, push_pause_event, current_episode,
}
use pulse_cutover.Machine.Reads.{journal_pause}
use pulse_cutover.Machine.Pause.{src_resume}
use pulse_cutover.Machine.Ownership.{
  marks, entry_of, pauses_of, standing, Standing, Sound, Lawful, AfterOwnIntent, memory,
}
use pulse_cutover.Machine.Ownership.Silence.{only_effect, Says, Says-effect}
use pulse_cutover.Machine.Ownership.Gates.{shadow_mutation_gate-Quiet, shadow_producer_gate-Quiet}
use pulse_cutover.Machine.Ownership.Law.{SoundAt, kept-Quiet, pushed-Sound}
use pulse_cutover.Machine.Ownership.Calls.{confirm_resume-Keeps, settle_resume-Keeps}

-- The pause is this ceremony's own; the intent to resume it is the last thing.
abbrev pub Ours : List PauseEvent → Standing → Type 0
Ours before s = Sound before s × (s.flags.is_ours ≡ true)

abbrev pub Closing : List PauseEvent → Standing → Type 0
Closing before s = Sound before s × AfterOwnIntent before s.legacy_paused s.acks_tracked s.marked

module _ ⦃J : Json⦄ ⦃H : Host⦄ where
  open J use {Value, text, flag, number}

  module _ (laws : BuildLaws J) where
    Says-intent :
        (episode : ℕ) (what : String)
        → Says laws
            (("side_effect", text "source_resume")
              ∷ ("episode", number episode)
              ∷ ("during", text what)
              ∷ [])
            (resume_intent ∷ [])
    unfolding only_effect entry
    Says-intent episode what = Says-effect laws _ "source_resume" false refl refl refl

  module _ (laws : BuildLaws J) (before : List PauseEvent) where
    abbrev OursAt : Machine → Type 0
    OursAt m = Ours before (standing m)

    abbrev ClosingAt : Machine → Type 0
    ClosingAt m = Closing before (standing m)

    intended-Closing :
        (m : Machine) (w : H.World) (l : Line)
        → pauses_of (entry_of l) ≡ resume_intent ∷ []
        → OursAt m
        → ClosingAt (push_event resume_intent (record m { world = w; trace = wrote l ∷ m.trace }))
    unfolding push_event marks
    intended-Closing m w l p h = (
      pushed-Sound laws m w l resume_intent p h.0,
      rw (p, ← h.0.recalled) (ap (λ (e : Episodes). e.is_ours) (sym h.0.derived) ∙ h.1),
    )

    intent-Post :
        (m : Machine) (w : H.World) (l : Line) (done : Result Unit)
        → pauses_of (entry_of l) ≡ resume_intent ∷ []
        → OursAt m
        → Post ClosingAt (SoundAt before) (
            (lift done >> push_pause_event resume_intent)
              (record m { world = w; trace = mark_line l done ∷ m.trace }))
    unfolding push_pause_event ◌>>=◌ marks
    intent-Post m w l (ok done) p h = intended-Closing m w l p h
    intent-Post m w l (err x) p h = record {
      derived = h.0.derived;
      recalled = h.0.recalled;
      lawful = h.0.lawful;
    }

    intent-Ensures :
        (r : Record)
        → Says laws r (resume_intent ∷ [])
        → Ensures OursAt ClosingAt (SoundAt before) (journal_pause r resume_intent)
    unfolding journal_pause evidence append call entry_of ◌>>=◌
    intent-Ensures r s = record {
      at = λ m h.
          let l = evidence_line m.state r in
          let a = H.append l m.world in intent-Post m a.1 l a.0 (s.read (entry_of l) refl) h;
    }

    resumed-Ensures :
        Ensures ClosingAt (SoundAt before) (SoundAt before) (attempt (call H.resume resumed))
    unfolding call ◌>>=◌ marks Lawful memory
    resumed-Ensures = record {
      at = λ m h. record {
        derived = h.0.derived;
        recalled = h.0.recalled;
        lawful = (h.1, h.0.lawful);
      };
    }

    pub src_resume-Ensures :
        (what : String) → Ensures OursAt (SoundAt before) (SoundAt before) (src_resume what)
    unfolding src_resume
    src_resume-Ensures what =
        let gates : (s : Machine) → OursAt s → SoundAt before s = λ s h. h.0 in
        Ensures-bind _ _
          (Ensures-Along _ gates (kept-Quiet (Ours before) _ (shadow_mutation_gate-Quiet laws _)))
          λ _.
            Ensures-bind _ _
              (Ensures-Along _ gates
                (kept-Quiet (Ours before) _ (shadow_producer_gate-Quiet laws _)))
              λ _. Ensures-bind _ _ (Ensures-Along _ gates (Along-gets current_episode)) λ episode.
                Ensures-bind _ _ (intent-Ensures _ (Says-intent laws episode what)) λ _.
                  Ensures-bind _ _ resumed-Ensures λ rpc.
                    Ensures-rest _ (λ s h. h)
                      (Along-on_result rpc _ _ (λ _. confirm_resume-Keeps laws episode)
                        (settle_resume-Keeps laws episode))

    -- A resume of a pause that is this ceremony's own keeps the memory, the journal and the flags in step,
    -- and the RPC comes right after the intent, journaled and remembered.
    pub src_resume-Sound :
        (what : String) (m : Machine)
        → SoundAt before m
        → m.paused_by_us ≡ true
        → SoundAt before (src_resume what m).1
    src_resume-Sound what m h o =
        Post-any (SoundAt before) (src_resume what m) ((src_resume-Ensures what).at m (h, o))
