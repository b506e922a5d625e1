-- ===== src/Journal/Episodes.antt =====
-- src/journal.rs, `pause_episodes`: whose the source producer's current pause is, from the journaled
-- pause events. The vector of episodes is a list with the latest first.
pub mod Stack
pub mod Ownership
use pulse_cutover.Prelude.{
  Bool, true, false, Option, none, some, List, [], ◌∷◌, if◌then◌else◌, ◌||◌, find, map_option,
}

pub data PauseEvent : Type 0 where
  pause : Bool → PauseEvent  -- ours
  ack : PauseEvent
  resume : PauseEvent
  release : Bool → PauseEvent  -- live
  resume_intent : PauseEvent

pub data Owner : Type 0 where
  ours external unknown closing : Owner

pub record Episodes : Type 0 where
  pub is_ours : Bool
  pub is_external : Bool
  pub is_unknown : Bool
  pub ever_ours : Bool

pub record Episode : Type 0 where
  pub owner : Owner
  pub is_open : Bool

pub record Log : Type 0 where
  pub eps : List Episode
  pub ever : Bool

abbrev pub opened : Owner → Episode
opened w = record { owner = w; is_open = true }

-- `eps.iter_mut().rev().find(|(_, open)| *open)`, and the change of what it finds.
unfoldable pub change_latest : (Episode → Episode) → List Episode → List Episode
change_latest f [] = []
change_latest f (e ∷ es) = let rest = change_latest f es in if e.is_open then f e ∷ es else e ∷ rest

abbrev pub acked : Owner → Owner
acked unknown = ours
acked ours = ours
acked external = external
acked closing = closing

abbrev pub intends : Owner → Owner
intends ours = closing
intends external = external
intends unknown = unknown
intends closing = closing

abbrev pub intent_owner : Bool → Owner
intent_owner acks_tracked = if acks_tracked then unknown else ours

abbrev pub released_to : Bool → Owner
released_to live = if live then ours else unknown

abbrev pub latest_open : List Episode → Option Owner
latest_open eps = map_option (λ e. e.owner) (find eps (λ e. e.is_open))

-- The latest open episode gets the owner, or a new one is opened.
unfoldable pub release_latest : Owner → List Episode → List Episode
release_latest w eps = elim (latest_open eps) [
  | some v ↦ change_latest (λ e. record e { owner = w }) eps
  | none ↦ opened w ∷ eps
]

-- One event of the fold.
unfoldable pub fold_event : Bool → PauseEvent → Log → Log
fold_event acks_tracked (pause true) l = record {
  eps = opened (intent_owner acks_tracked) ∷ l.eps;
  ever = true;
}
fold_event acks_tracked (pause false) l = record l { eps = opened external ∷ l.eps }
fold_event acks_tracked ack l = record l {
  eps = change_latest (λ e. record e { owner = acked e.owner }) l.eps;
}
fold_event acks_tracked resume l = record l {
  eps = change_latest (λ e. record e { is_open = false }) l.eps;
}
fold_event acks_tracked (release live) l = record l {
  eps = release_latest (released_to live) l.eps;
}
fold_event acks_tracked resume_intent l = record l {
  eps = change_latest (λ e. record e { owner = intends e.owner }) l.eps;
}

unfoldable pub fold_events : Bool → List PauseEvent → Log → Log
fold_events acks_tracked [] l = l
fold_events acks_tracked (e ∷ es) l = fold_events acks_tracked es (fold_event acks_tracked e l)

abbrev pub start : Bool → Log
start legacy_paused = record {
  eps = if legacy_paused then opened ours ∷ [] else [];
  ever = legacy_paused;
}

abbrev is_owner_ours : Option Owner → Bool
is_owner_ours (some ours) = true
is_owner_ours (some external) = false
is_owner_ours (some unknown) = false
is_owner_ours (some closing) = false
is_owner_ours none = false

abbrev is_owner_external : Option Owner → Bool
is_owner_external (some external) = true
is_owner_external (some ours) = false
is_owner_external (some unknown) = false
is_owner_external (some closing) = false
is_owner_external none = false

abbrev is_owner_unknown : Option Owner → Bool
is_owner_unknown (some unknown) = true
is_owner_unknown (some closing) = true
is_owner_unknown (some ours) = false
is_owner_unknown (some external) = false
is_owner_unknown none = false

abbrev pub verdict : Option Owner → Bool → Episodes
verdict latest ever = record {
  is_ours = is_owner_ours latest;
  is_external = is_owner_external latest;
  is_unknown = is_owner_unknown latest;
  ever_ours = ever;
}

unfoldable pub pause_episodes : List PauseEvent → Bool → Bool → Episodes
unfolding fold_events
pause_episodes events legacy_paused acks_tracked =
    let l = fold_events acks_tracked events (start legacy_paused) in
    verdict (latest_open l.eps) l.ever
