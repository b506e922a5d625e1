-- ===== src/Machine/Ownership/Recall.antt =====
-- src/machine.rs and src/journal.rs: what a restarted agent reads of the pause is what this one remembers.
use pulse_cutover.Prelude.{◌≡◌, refl, ap, ◌∙◌, sym, String, List, [], ◌∷◌, ◌++◌, map, Bool}
use pulse_cutover.Json.{Json, BuildLaws}
use pulse_cutover.Journal.Episodes.{PauseEvent}
use pulse_cutover.Machine.Host.{Host}
use pulse_cutover.Machine.Core.{Machine}
use pulse_cutover.Machine.Rollback.{rollback_steps}
use pulse_cutover.Machine.Abort.{abort}
use pulse_cutover.Machine.Ownership.{
  Mark, known, logged, asked, marks, memory, journal, as_replayed, Lawful,
}
use pulse_cutover.Machine.Ownership.Law.{SoundAt}
use pulse_cutover.Machine.Ownership.Rollback.{rollback_steps-Keeps}
use pulse_cutover.Machine.Ownership.Abort.{abort-Keeps}

map-append :
    {A B : Type 0} (f : A → B) (xs : List A) (x : A)
    → map f (xs ++ (x ∷ [])) ≡ map f xs ++ (f x ∷ [])
map-append f [] x = refl
map-append f (y ∷ ys) x = ap (λ zs. f y ∷ zs) (map-append f ys x)

module _ (before : List PauseEvent) (legacy_paused acks_tracked : Bool) where
  journal-memory :
      (ms : List Mark)
      → Lawful before legacy_paused acks_tracked ms
      → journal (map as_replayed before) ms ≡ map as_replayed (memory before ms)
  unfolding Lawful journal memory
  journal-memory [] h = refl
  journal-memory (asked ∷ ms) h = journal-memory ms h.1
  journal-memory (logged e ∷ ms) h = absurd h
  journal-memory (known e ∷ []) h = absurd h
  journal-memory (known e ∷ known e' ∷ ms) h = absurd h
  journal-memory (known e ∷ asked ∷ ms) h = absurd h
  journal-memory (known e ∷ logged e' ∷ ms) h =
      rw (h.0, map-append as_replayed (memory before ms) e)
        (ap (λ es. es ++ (as_replayed e ∷ [])) (journal-memory ms h.1))

module _ ⦃J : Json⦄ ⦃H : Host⦄ where
  -- The pause events that the journal held when the run began, and those of the lines it has written since.
  abbrev pub journaled : List PauseEvent → Machine → List PauseEvent
  journaled before m = journal (map as_replayed before) (marks m.trace)

  pub recalls :
      (before : List PauseEvent) (m : Machine)
      → SoundAt before m
      → journaled before m ≡ map as_replayed m.pause_events
  recalls before m h =
      journal-memory before m.legacy_paused m.acks_tracked (marks m.trace) h.lawful
      ∙ ap (map as_replayed) (sym h.recalled)

  module _ (laws : BuildLaws J) (before : List PauseEvent) where
    -- From a machine whose memory, flags and journal are in step, an abort, whatever the host answers and
    -- whichever journal write fails, ends with the flags that the pause events give, with every event in
    -- the memory journaled just before, and with every resume RPC right after the journaled intent to
    -- resume a pause that was this ceremony's own.
    pub abort-Sound :
        (reason : String) (detail : Json.Value J) (m : Machine)
        → SoundAt before m
        → SoundAt before (abort reason detail m).1
    abort-Sound reason detail m = (abort-Keeps laws reason detail).at m

    -- So the lines of the journal after any abort say the pause events of the memory, where a release by
    -- the operator reads as one of unknown ownership.
    pub abort-journaled :
        (reason : String) (detail : Json.Value J) (m : Machine)
        → SoundAt before m
        → journaled before (abort reason detail m).1
          ≡ map as_replayed (abort reason detail m).1.pause_events
    abort-journaled reason detail m h =
        recalls before (abort reason detail m).1 (abort-Sound reason detail m h)

    -- The same for the steps of a rollback, performed or not.
    pub rollback_steps-Sound :
        (reason : String) (detail : Json.Value J) (perform unstage_any : Bool) (m : Machine)
        → SoundAt before m
        → SoundAt before (rollback_steps reason detail perform unstage_any m).1
    rollback_steps-Sound reason detail perform unstage_any m =
        (rollback_steps-Keeps laws reason detail perform unstage_any).at m
