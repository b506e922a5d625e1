-- ===== src/Machine/Ownership/Replayed.antt =====
-- src/machine.rs and src/journal.rs: the lines that a run writes, through `Journal::replay`.
use pulse_cutover.Prelude.{
  ℕ, ◌≡◌, refl, ap, sym, ◌∙◌, subst, Bool, true, some, List, [], ◌∷◌, ◌++◌, map, Bool-cases, inl,
  inr, if◌then◌else◌,
}
use mathlib.Core.List.{append-nil, append_assoc}
use pulse_cutover.Json.{Json}
use pulse_cutover.State.{as_str, from_str, from_str-as_str}
use pulse_cutover.Journal.Episodes.{PauseEvent}
use pulse_cutover.Journal.Replay.{Entry, Recovered, Replayed, read, refused, entry}
use pulse_cutover.Journal.Replay.Transition.{transition}
use pulse_cutover.Journal.Replay.Lines.{note, apply, then_replay, replay_lines}
use pulse_cutover.Journal.Replay.Pauses.{pauses-note, pauses-transition}
use pulse_cutover.Machine.Host.{
  Line, evidence_line, error_line, transition_line, Effect, wrote, unwritten, saw_producer, paused,
  resumed, ran, paged, saw_whitelist, set_whitelist, moved_aside, remembered,
}
use pulse_cutover.Machine.Ownership.{Mark, logged, logged_all, entry_of, pauses_of, marks, journal}

module _ ⦃J : Json⦄ where
  logged-journal :
      (before : List PauseEvent) (es : List PauseEvent) (ms : List Mark)
      → journal before (logged_all es ms) ≡ journal before ms ++ es
  unfolding journal
  logged-journal before [] ms = sym (append-nil (journal before ms))
  logged-journal before (e ∷ es) ms =
      logged-journal before es (logged e ∷ ms) ∙ append_assoc (journal before ms) (e ∷ []) es

  abbrev stamped : ℕ → Line → Entry
  stamped ts l = record (entry_of l) { ts_ms = ts }

  -- The lines that a trace, the latest effect first, has added to the file, the oldest first, each with its
  -- time stamp. A write that failed, as one whose sync fails, may leave its line too.
  unfoldable pub file_entries :
      (Line → List Effect → Bool) → (List Effect → ℕ) → List Effect → List Entry
  file_entries left stamp [] = []
  file_entries left stamp (wrote l ∷ t) = file_entries left stamp t ++ (stamped (stamp t) l ∷ [])
  file_entries left stamp (unwritten l ∷ t) =
      file_entries left stamp t ++ (if left l t then stamped (stamp t) l ∷ [] else [])
  file_entries left stamp (_ ∷ t) = file_entries left stamp t

  -- The records are read, and leave these pause events.
  abbrev pub ReadAs : Bool → List Entry → Recovered → List PauseEvent → Type 0
  ReadAs newline es r events =
      (r' : Recovered) × (replay_lines newline (map (λ e. entry e) es) r ≡ read r')
      × (r'.pause_events ≡ events)

  applied :
      (ts : ℕ) (l : Line) (r : Recovered)
      → (r' : Recovered) × (apply (stamped ts l) r ≡ read r')
        × (r'.pause_events ≡ r.pause_events ++ pauses_of (entry_of l))
  unfolding apply entry_of pauses_of
  applied ts (evidence_line st d) r =
      let e = stamped ts (evidence_line st d) in (note e r, refl, pauses-note e r)
  applied ts (error_line st reason detail) r =
      let e = stamped ts (error_line st reason detail) in (note e r, refl, pauses-note e r)
  applied ts (transition_line st d) r =
      let e = stamped ts (transition_line st d) in
      let known_text : from_str (as_str st) ≡ some st = (from_str-as_str (as_str st) st).1 refl in
      (
        note e (transition st e r),
        rw known_text refl,
        pauses-note e (transition st e r) ∙ ap (λ es. es ++ pauses_of e) (pauses-transition st e r),
      )

  then_end : (newline : Bool) (x : Replayed Recovered) → then_replay x (replay_lines newline []) ≡ x
  unfolding replay_lines
  then_end newline (read r) = refl
  then_end newline (refused e) = refl

  replayed_on :
      (newline : Bool) (es : List Entry) (e : Entry) (first : Replayed Recovered)
      → ((r : Recovered)
          → replay_lines newline (map (λ x. entry x) (es ++ (e ∷ []))) r
            ≡ then_replay (replay_lines newline (map (λ x. entry x) es) r) (apply e))
      → then_replay first (replay_lines newline (map (λ x. entry x) (es ++ (e ∷ []))))
        ≡ then_replay (then_replay first (replay_lines newline (map (λ x. entry x) es))) (apply e)
  replayed_on newline es e (read s) h = h s
  replayed_on newline es e (refused why) h = refl

  replay_last :
      (newline : Bool) (es : List Entry) (e : Entry) (r : Recovered)
      → replay_lines newline (map (λ x. entry x) (es ++ (e ∷ []))) r
        ≡ then_replay (replay_lines newline (map (λ x. entry x) es) r) (apply e)
  unfolding replay_lines
  replay_last newline [] e r = then_end newline (apply e r)
  replay_last newline (x ∷ es) e r =
      replayed_on newline es e (apply x r) λ s. replay_last newline es e s

  added-ReadAs :
      (newline : Bool) (es : List Entry) (ts : ℕ) (l : Line) (r : Recovered)
      (events : List PauseEvent)
      → ReadAs newline es r events
      → ReadAs newline (es ++ (stamped ts l ∷ [])) r (events ++ pauses_of (entry_of l))
  added-ReadAs newline es ts l r events (s, h, k) =
      let (t, h2, k2) = applied ts l s in
      (
        t,
        replay_last newline es (stamped ts l) r
            ∙ ap (λ x. then_replay x (apply (stamped ts l))) h
            ∙ h2,
        k2 ∙ ap (λ x. x ++ pauses_of (entry_of l)) k,
      )

  module _ (newline : Bool) (left : Line → List Effect → Bool) (stamp : List Effect → ℕ)
      (quiet : (l : Line) (t : List Effect) → left l t ≡ true → pauses_of (entry_of l) ≡ []) where
    left-ReadAs :
        (l : Line) (t : List Effect) (es : List Entry) (r : Recovered) (events : List PauseEvent)
        → ReadAs newline es r events
        → ReadAs newline (es ++ (if left l t then stamped (stamp t) l ∷ [] else [])) r events
    left-ReadAs l t es r events h = elim (Bool-cases (left l t)) [
      | inl y ↦ rw y (
          subst (ReadAs newline (es ++ (stamped (stamp t) l ∷ [])) r)
            (ap (λ x. events ++ x) (quiet l t y) ∙ append-nil events)
            (added-ReadAs newline es (stamp t) l r events h))
      | inr n ↦ rw n (subst (λ x. ReadAs newline x r events) (sym (append-nil es)) h)
    ]

    -- A replay of the lines that a trace leaves adds the pause events that its marks say.
    pub file-ReadAs :
        (t : List Effect) (r : Recovered)
        → ReadAs newline (file_entries left stamp t) r (journal r.pause_events (marks t))
    unfolding file_entries marks journal replay_lines
    file-ReadAs [] r = (r, refl, refl)
    file-ReadAs (wrote l ∷ t) r =
        subst (ReadAs newline (file_entries left stamp (wrote l ∷ t)) r)
          (sym (logged-journal r.pause_events (pauses_of (entry_of l)) (marks t)))
          (added-ReadAs newline (file_entries left stamp t) (stamp t) l r _ (file-ReadAs t r))
    file-ReadAs (unwritten l ∷ t) r =
        left-ReadAs l t (file_entries left stamp t) r _ (file-ReadAs t r)
    file-ReadAs (saw_producer a ∷ t) r = file-ReadAs t r
    file-ReadAs (paused a ∷ t) r = file-ReadAs t r
    file-ReadAs (resumed a ∷ t) r = file-ReadAs t r
    file-ReadAs (ran cmd a ∷ t) r = file-ReadAs t r
    file-ReadAs (paged cmd a ∷ t) r = file-ReadAs t r
    file-ReadAs (saw_whitelist a ∷ t) r = file-ReadAs t r
    file-ReadAs (set_whitelist names a ∷ t) r = file-ReadAs t r
    file-ReadAs (moved_aside to a ∷ t) r = file-ReadAs t r
    file-ReadAs (remembered e ∷ t) r = file-ReadAs t r
