-- ===== src/Machine/Ownership.antt =====
-- src/machine.rs and src/journal.rs: whose the pause is, in the machine's memory and in its journal. The
-- marks are the part of the trace that says it.
pub mod Views
pub mod Silence
pub mod Quiet
pub mod Gates
pub mod Law
pub mod Calls
pub mod Resume
pub mod Admission
pub mod Rollback
pub mod Abort
pub mod Operator
pub mod Recall
pub mod Replayed
use pulse_cutover.Prelude.{
  ℕ, String, Bool, true, false, ◌&&◌, Option, none, some, List, [], ◌∷◌, ◌++◌, map, ◌≡◌, ◌==◌,
  if◌then◌else◌, and_then, map_or,
}
use pulse_cutover.Json.{Json, entry}
use pulse_cutover.State.{as_str}
use pulse_cutover.Fleet.Reports.{is_true}
use pulse_cutover.Journal.Episodes.{
  PauseEvent, pause, ack, resume, release, resume_intent, Episodes, pause_episodes,
}
use pulse_cutover.Journal.Replay.{Entry, text_at, flag_at}
use pulse_cutover.Journal.Replay.Effects.{settled_pauses, effect_pauses, event_if}
use pulse_cutover.Machine.Host.{
  Host, Record, Line, evidence_line, error_line, transition_line, Effect, wrote, unwritten,
  saw_producer, paused, resumed, ran, paged, saw_whitelist, set_whitelist, moved_aside, remembered,
}
use pulse_cutover.Machine.Core.{Machine}

pub data Mark : Type 0 where
  logged : PauseEvent → Mark  -- in the journal
  known : PauseEvent → Mark  -- in the memory
  asked : Mark  -- the resume RPC

module _ ⦃J : Json⦄ where
  open J use {object, text}

  -- A line as `Journal::replay` reads it. Its time stamp is not read for the pause events.
  unfoldable pub entry_of : Line → Entry
  unfolding as_str
  entry_of (evidence_line st r) = record {
    ts_ms = 0;
    state = as_str st;
    kind = "evidence";
    data_of = object r;
  }
  entry_of (error_line st reason detail) = record {
    ts_ms = 0;
    state = as_str st;
    kind = "error";
    data_of = object (("message", text reason) ∷ ("detail", detail) ∷ []);
  }
  entry_of (transition_line st r) = record {
    ts_ms = 0;
    state = as_str st;
    kind = "transition";
    data_of = object r;
  }

  abbrev step_pauses : Entry → List PauseEvent
  step_pauses e =
      map_or [] (λ step. if flag_at e "ok" then event_if (step == "resume") resume else [])
        (text_at e "rollback_step")

  -- The pause events that a replay adds for a line.
  unfoldable pub pauses_of : Entry → List PauseEvent
  unfolding settled_pauses effect_pauses
  pauses_of e =
      settled_pauses e
      ++ (map_or [] (λ se. effect_pauses e se) (text_at e "side_effect") ++ step_pauses e)

  abbrev pub logged_all : List PauseEvent → List Mark → List Mark
  logged_all [] ms = ms
  logged_all (e ∷ es) ms = logged_all es (logged e ∷ ms)

  -- The marks of a trace, the latest first.
  unfoldable pub marks : List Effect → List Mark
  unfolding entry_of pauses_of
  marks [] = []
  marks (wrote l ∷ t) = logged_all (pauses_of (entry_of l)) (marks t)
  marks (unwritten l ∷ t) = marks t
  marks (saw_producer r ∷ t) = marks t
  marks (paused r ∷ t) = marks t
  marks (resumed r ∷ t) = asked ∷ marks t
  marks (ran cmd r ∷ t) = marks t
  marks (paged cmd r ∷ t) = marks t
  marks (saw_whitelist r ∷ t) = marks t
  marks (set_whitelist l r ∷ t) = marks t
  marks (moved_aside to r ∷ t) = marks t
  marks (remembered e ∷ t) = known e ∷ marks t

-- A release by this run reads as one of unknown ownership later.
abbrev pub as_replayed : PauseEvent → PauseEvent
as_replayed (release live) = release false
as_replayed (pause b) = pause b
as_replayed ack = ack
as_replayed resume = resume
as_replayed resume_intent = resume_intent

-- The events in the memory and in the journal, in order.
unfoldable pub memory : List PauseEvent → List Mark → List PauseEvent
memory before [] = before
memory before (known e ∷ ms) = memory before ms ++ (e ∷ [])
memory before (logged e ∷ ms) = memory before ms
memory before (asked ∷ ms) = memory before ms

unfoldable pub journal : List PauseEvent → List Mark → List PauseEvent
journal before [] = before
journal before (known e ∷ ms) = journal before ms
journal before (logged e ∷ ms) = journal before ms ++ (e ∷ [])
journal before (asked ∷ ms) = journal before ms

module _ (before : List PauseEvent) (legacy_paused acks_tracked : Bool) where
  abbrev pub OwnPause : List Mark → Type 0
  OwnPause ms = (pause_episodes (memory before ms) legacy_paused acks_tracked).is_ours ≡ true

  -- The last thing was the intent to resume a pause of this ceremony.
  abbrev pub AfterOwnIntent : List Mark → Type 0
  AfterOwnIntent (known resume_intent ∷ logged e ∷ ms) = OwnPause ms
  AfterOwnIntent _ = ⊥

  -- An event is remembered right after it is journaled, and a resume is asked for right after the intent
  -- to resume an own pause.
  unfoldable pub Lawful : List Mark → Type 0
  Lawful [] = Unit
  Lawful (asked ∷ ms) = AfterOwnIntent ms × Lawful ms
  Lawful (logged e ∷ ms) = ⊥
  Lawful (known e ∷ logged e' ∷ ms) = (e' ≡ as_replayed e) × Lawful ms
  Lawful (known e ∷ _) = ⊥

-- What the machine says of the pause: its events, its flags, and the marks.
pub record Standing : Type 0 where
  pub events : List PauseEvent
  pub flags : Episodes
  pub legacy_paused : Bool
  pub acks_tracked : Bool
  pub marked : List Mark

module _ ⦃J : Json⦄ ⦃H : Host⦄ where
  abbrev pub standing : Machine → Standing
  standing m = record {
    events = m.pause_events;
    flags = record {
      is_ours = m.paused_by_us;
      is_external = m.pause_adopted;
      is_unknown = m.pause_unknown;
      ever_ours = m.ever_paused_by_us;
    };
    legacy_paused = m.legacy_paused;
    acks_tracked = m.acks_tracked;
    marked = marks m.trace;
  }

-- The flags are those of the events, the events are those remembered, and the marks are lawful.
pub record Sound (before : List PauseEvent) (s : Standing) : Type 0 where
  pub derived : s.flags ≡ pause_episodes s.events s.legacy_paused s.acks_tracked
  pub recalled : s.events ≡ memory before s.marked
  pub lawful : Lawful before s.legacy_paused s.acks_tracked s.marked
