-- ===== src/Machine/Reached.antt =====
-- src/machine.rs: the machines that a run reaches, from `Machine::new` by the operations in any order,
-- while the world outside changes too.
use pulse_cutover.Prelude.{ℕ, String, Bool, true, ◌≡◌, ap, sym, ◌∙◌, List, [], map}
use pulse_cutover.Json.{Json, BuildLaws}
use pulse_cutover.Journal.Replay.{Recovered, read, entry}
use pulse_cutover.Journal.Replay.Lines.{replay_lines}
use pulse_cutover.Journal.Episodes.{PauseEvent}
use pulse_cutover.Machine.Host.{Host, Line, Effect}
use pulse_cutover.Machine.Core.{Machine}
use pulse_cutover.Machine.Reads.{read_paused, stop_point}
use pulse_cutover.Machine.Pause.{src_pause}
use pulse_cutover.Machine.Admission.{freeze_writes, lock_admission}
use pulse_cutover.Machine.Admission.Recheck.{hold_source_sealed}
use pulse_cutover.Machine.View.{note_fleet_view}
use pulse_cutover.Machine.Strand.{ensure_source_paused}
use pulse_cutover.Machine.Abort.{abort}
use pulse_cutover.Machine.Operator.Undo.{operator_rollback_opts}
use pulse_cutover.Machine.New.{new, new-Sound}
use pulse_cutover.Machine.Ownership.{as_replayed, entry_of, pauses_of, marks, journal}
use pulse_cutover.Machine.Ownership.Law.{SoundAt}
use pulse_cutover.Machine.Ownership.Calls.{read_paused-Keeps, stop_point-Keeps, src_pause-Keeps}
use pulse_cutover.Machine.Ownership.Admission.{
  freeze_writes-Keeps, lock_admission-Keeps, hold_source_sealed-Keeps, ensure_source_paused-Keeps,
}
use pulse_cutover.Machine.Ownership.Views.{note_fleet_view-Keeps}
use pulse_cutover.Machine.Ownership.Abort.{abort-Keeps}
use pulse_cutover.Machine.Ownership.Operator.{operator_rollback-Keeps}
use pulse_cutover.Machine.Ownership.Recall.{recalls}
use pulse_cutover.Machine.Ownership.Replayed.{file_entries, file-ReadAs}

module _ ⦃J : Json⦄ ⦃H : Host⦄ where
  -- One operation, whatever it returns, or a change of the world outside.
  pub data Step (m : Machine) : Machine → Type 0 where
    elsewhere : (w : H.World) → Step m (record m { world = w })
    stops : Step m (stop_point m).1
    reads_source : Step m (read_paused m).1
    freezes : (cmd : String) → Step m (freeze_writes cmd m).1
    locks : Step m (lock_admission m).1
    pauses : Step m (src_pause m).1
    views : (doc : Json.Value J) → Step m (note_fleet_view doc m).1
    holds_sealed : (at : String) → Step m (hold_source_sealed at m).1
    enforces : Step m (ensure_source_paused m).1
    aborts : (reason : String) (detail : Json.Value J) → Step m (abort reason detail m).1
    rolls_back :
        (force force_stranded : Bool) → Step m (operator_rollback_opts force force_stranded m).1

  pub data Reached (w : H.World) (r : Recovered) : Machine → Type 0 where
    started : Reached w r (new w r)
    next : (m n : Machine) → Reached w r m → Step m n → Reached w r n

  module _ (laws : BuildLaws J) (before : List PauseEvent) where
    Step-Sound : (m n : Machine) → Step m n → SoundAt before m → SoundAt before n
    Step-Sound m _ (elsewhere w) h = record {
      derived = h.derived;
      recalled = h.recalled;
      lawful = h.lawful;
    }
    Step-Sound m _ stops h = (stop_point-Keeps laws).at m h
    Step-Sound m _ reads_source h = (read_paused-Keeps laws).at m h
    Step-Sound m _ (freezes cmd) h = (freeze_writes-Keeps laws cmd).at m h
    Step-Sound m _ locks h = (lock_admission-Keeps laws).at m h
    Step-Sound m _ pauses h = (src_pause-Keeps laws).at m h
    Step-Sound m _ (views doc) h = (note_fleet_view-Keeps laws doc).at m h
    Step-Sound m _ (holds_sealed at) h = (hold_source_sealed-Keeps laws at).at m h
    Step-Sound m _ enforces h = (ensure_source_paused-Keeps laws).at m h
    Step-Sound m _ (aborts reason detail) h = (abort-Keeps laws reason detail).at m h
    Step-Sound m _ (rolls_back force force_stranded) h =
        (operator_rollback-Keeps laws force force_stranded).at m h

  module _ (laws : BuildLaws J) (w : H.World) (r : Recovered) where
    kept_along_run : (m : Machine) → Reached w r m → SoundAt r.pause_events m
    kept_along_run _ started = new-Sound w r
    kept_along_run _ (next m n a s) = Step-Sound laws r.pause_events m n s (kept_along_run m a)

    pub Reached-Sound :
        (m : Machine) (newline : Bool) (left : Line → List Effect → Bool) (stamp : List Effect → ℕ)
        → map as_replayed r.pause_events ≡ r.pause_events
        → ((l : Line) (t : List Effect) → left l t ≡ true → pauses_of (entry_of l) ≡ [])
        → Reached w r m
        → SoundAt r.pause_events m
          × (r' : Recovered) × (replay_lines newline
                (map (λ e. entry e) (file_entries left stamp m.trace))
                r
              ≡ read r')
          × (r'.pause_events ≡ map as_replayed m.pause_events)
    Reached-Sound m newline left stamp replayed quiet a =
        let sound = kept_along_run m a in
        let (r', reads, events) = file-ReadAs newline left stamp quiet m.trace r in
        (
          sound,
          r',
          reads,
          events
              ∙ ap (λ es. journal es (marks m.trace)) (sym replayed)
              ∙ recalls r.pause_events m sound,
        )
