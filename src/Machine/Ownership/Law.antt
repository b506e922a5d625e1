-- ===== src/Machine/Ownership/Law.antt =====
-- src/machine.rs: the actions that read, pause or adopt keep the memory, the journal and the flags in step.
use pulse_cutover.Prelude.{
  ℕ, zero, suc, String, Bool, true, false, not, ◌≡◌, refl, sym, ap, ◌∙◌, subst, List, [], ◌∷◌, ◌++◌,
  Option, none, some,
}
use pulse_cutover.Json.{Json, BuildLaws}
use pulse_cutover.State.{State}
use pulse_cutover.Journal.Episodes.{PauseEvent}
use pulse_cutover.Machine.Exec.{Result, ok, err, lift, modify, ◌>>=◌, ◌>>◌}
use pulse_cutover.Machine.Exec.Along.{Along, Same, Kept, Kept-Preorder, along_rules, Along-modify}
use pulse_cutover.Machine.Host.{Host, Record, Line, evidence_line, Effect, wrote}
use pulse_cutover.Machine.Core.{
  Machine, Action, call, ask, now_ms, sleep_ms, append, mark_line, evidence, evidence_in, error,
  enter, push_event, push_pause_event,
}
use pulse_cutover.Machine.Reads.{journal_pause}
use pulse_cutover.Machine.Ownership.{
  marks, entry_of, pauses_of, standing, Standing, Sound, Lawful, memory, as_replayed,
}
use pulse_cutover.Machine.Ownership.Silence.{silent, Says}
use pulse_cutover.Machine.Ownership.Quiet.{
  Quiet, modify-Quiet, ask-Quiet, now_ms-Quiet, sleep_ms-Quiet, evidence-Quiet, evidence_in-Quiet,
  error-Quiet, enter-Quiet, call-Quiet,
}

module _ ⦃J : Json⦄ ⦃H : Host⦄ where
  abbrev pub SoundAt : List PauseEvent → Machine → Type 0
  SoundAt before m = Sound before (standing m)

  abbrev pub Keeps : {A : Type 0} → List PauseEvent → Action A → Type 0
  Keeps before m = Along (Kept (SoundAt before)) m

  pub kept-Quiet :
      {A : Type 0} (P : Standing → Type 0) (m : Action A)
      → Quiet m
      → Along (Kept (λ s. P (standing s))) m
  kept-Quiet P m q = record { at = λ s h. subst P (sym (q.at s)) h }

  pub Keeps-Quiet :
      {A : Type 0} {before : List PauseEvent} (m : Action A) → Quiet m → Keeps before m
  Keeps-Quiet {before = before} m q = kept-Quiet (Sound before) m q

  module _ {before : List PauseEvent} where
    pub modify-Keeps :
        (f : Machine → Machine)
        → ((m : Machine) → standing (f m) ≡ standing m)
        → Keeps before (modify f)
    modify-Keeps f h = Keeps-Quiet (modify f) (modify-Quiet f h)

    pub ask-Keeps : {A : Type 0} (f : H.World → Result A × H.World) → Keeps before (ask f)
    ask-Keeps f = Keeps-Quiet (ask f) (ask-Quiet f)

    pub call-Keeps :
        {A : Type 0} (f : H.World → Result A × H.World) (mark : Result A → Effect)
        → ((r : Result A) (t : List Effect) → marks (mark r ∷ t) ≡ marks t)
        → Keeps before (call f mark)
    call-Keeps f mark h = Keeps-Quiet (call f mark) (call-Quiet f mark h)

    pub now_ms-Keeps : Keeps before now_ms
    now_ms-Keeps = Keeps-Quiet now_ms now_ms-Quiet

    pub sleep_ms-Keeps : (ms : ℕ) → Keeps before (sleep_ms ms)
    sleep_ms-Keeps ms = Keeps-Quiet (sleep_ms ms) (sleep_ms-Quiet ms)

    module _ (laws : BuildLaws J) where
      pub evidence-Keeps : (r : Record) → silent laws r ≡ true → Keeps before (evidence r)
      evidence-Keeps r h = Keeps-Quiet (evidence r) (evidence-Quiet laws r h)

      pub evidence_in-Keeps :
          (st : State) (r : Record) → silent laws r ≡ true → Keeps before (evidence_in st r)
      evidence_in-Keeps st r h = Keeps-Quiet (evidence_in st r) (evidence_in-Quiet laws st r h)

      pub error-Keeps :
          (reason : String) (detail : Json.Value J) → Keeps before (error reason detail)
      error-Keeps reason detail = Keeps-Quiet (error reason detail) (error-Quiet laws reason detail)

      pub enter-Keeps : (st : State) (r : Record) → silent laws r ≡ true → Keeps before (enter st r)
      enter-Keeps st r h = Keeps-Quiet (enter st r) (enter-Quiet laws st r h)

      pub pushed-Sound :
          (m : Machine) (w : H.World) (l : Line) (e : PauseEvent)
          → pauses_of (entry_of l) ≡ as_replayed e ∷ []
          → SoundAt before m
          → SoundAt before (push_event e (record m { world = w; trace = wrote l ∷ m.trace }))
      unfolding push_event marks memory Lawful
      pushed-Sound m w l e p h = record {
        derived = refl;
        recalled = rw p (ap (λ es. es ++ (e ∷ [])) h.recalled);
        lawful = rw p (refl, h.lawful);
      }

      written-Sound :
          (m : Machine) (w : H.World) (l : Line) (e : PauseEvent) (done : Result Unit)
          → pauses_of (entry_of l) ≡ as_replayed e ∷ []
          → SoundAt before m
          → SoundAt before
              ((lift done >> push_pause_event e)
                (record m { world = w; trace = mark_line l done ∷ m.trace })).1
      unfolding push_pause_event ◌>>=◌ marks
      written-Sound m w l e (ok done) p h = pushed-Sound m w l e p h
      written-Sound m w l e (err x) p h = record {
        derived = h.derived;
        recalled = h.recalled;
        lawful = h.lawful;
      }

      -- A record that says one event, and the event.
      pub journal_pause-Keeps :
          (r : Record) (e : PauseEvent)
          → Says laws r (as_replayed e ∷ [])
          → Keeps before (journal_pause r e)
      unfolding journal_pause evidence append call entry_of ◌>>=◌
      journal_pause-Keeps r e s = record {
        at = λ m h.
            let l = evidence_line m.state r in
            let a = H.append l m.world in written-Sound m a.1 l e a.0 (s.read (entry_of l) refl) h;
      }

pub ruleset keeps_rules = (
  along_rules, modify-Keeps, ask-Keeps, now_ms-Keeps, sleep_ms-Keeps, evidence-Keeps,
  evidence_in-Keeps, error-Keeps, enter-Keeps, refl,
)
