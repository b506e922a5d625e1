-- ===== src/Journal/Episodes/Stack.antt =====
-- src/journal.rs, `pause_episodes`, against a stack of the owners of the open pauses.
use pulse_cutover.Prelude.{
  ◌≡◌, refl, sym, ap, ◌∙◌, Bool, true, false, none, some, List, [], ◌∷◌, if◌then◌else◌, ◌||◌, any,
  first, arith, inl, inr, Option-cases,
}
use pulse_cutover.Journal.Episodes.{
  PauseEvent, pause, ack, resume, release, resume_intent, Owner, ours, external, Episode, Log,
  change_latest, acked, intends, intent_owner, released_to, latest_open, release_latest, fold_event,
  fold_events, start, verdict, pause_episodes,
}

-- The owners of the open episodes, latest first.
unfoldable pub open_owners : List Episode → List Owner
open_owners [] = []
open_owners (e ∷ es) = if e.is_open then e.owner ∷ open_owners es else open_owners es

abbrev pub on_top : (Owner → Owner) → List Owner → List Owner
on_top f [] = []
on_top f (w ∷ ws) = f w ∷ ws

abbrev pub pop : List Owner → List Owner
pop [] = []
pop (w ∷ ws) = ws

abbrev pub put : Owner → List Owner → List Owner
put w [] = w ∷ []
put w (v ∷ ws) = w ∷ ws

-- The specification: what an event does to the stack of owners.
unfoldable pub stack_event : Bool → PauseEvent → List Owner → List Owner
stack_event acks_tracked (pause true) ws = intent_owner acks_tracked ∷ ws
stack_event acks_tracked (pause false) ws = external ∷ ws
stack_event acks_tracked ack ws = on_top acked ws
stack_event acks_tracked resume ws = pop ws
stack_event acks_tracked (release live) ws = put (released_to live) ws
stack_event acks_tracked resume_intent ws = on_top intends ws

unfoldable pub stack_events : Bool → List PauseEvent → List Owner → List Owner
stack_events acks_tracked [] ws = ws
stack_events acks_tracked (e ∷ es) ws = stack_events acks_tracked es (stack_event acks_tracked e ws)

abbrev pub is_own_pause : PauseEvent → Bool
is_own_pause (pause b) = b
is_own_pause ack = false
is_own_pause resume = false
is_own_pause (release b) = false
is_own_pause resume_intent = false

open_owners-owner :
    (f : Owner → Owner) (es : List Episode)
    → open_owners (change_latest (λ e. record e { owner = f e.owner }) es)
      ≡ on_top f (open_owners es)
unfolding open_owners change_latest
open_owners-owner f [] = refl
open_owners-owner f (e ∷ es) = ground (arith, open_owners-owner f es)

open_owners-close :
    (es : List Episode)
    → open_owners (change_latest (λ e. record e { is_open = false }) es) ≡ pop (open_owners es)
unfolding open_owners change_latest
open_owners-close [] = refl
open_owners-close (e ∷ es) = ground (arith, open_owners-close es)

latest_open-first : (es : List Episode) → latest_open es ≡ first (open_owners es)
unfolding open_owners
latest_open-first [] = refl
latest_open-first (e ∷ es) = ground (arith, latest_open-first es)

put-empty : (w : Owner) (ws : List Owner) → first ws ≡ none → w ∷ ws ≡ put w ws
put-empty w [] h = refl
put-empty w (v ∷ ws) h = cc

put-full : (w v : Owner) (ws : List Owner) → first ws ≡ some v → on_top (λ _. w) ws ≡ put w ws
put-full w v [] h = cc
put-full w v (u ∷ ws) h = refl

open_owners-release :
    (w : Owner) (es : List Episode) → open_owners (release_latest w es) ≡ put w (open_owners es)
unfolding release_latest open_owners
open_owners-release w es = elim (Option-cases (latest_open es)) [
  | inl e ↦ rw (e, release_latest) (put-empty w (open_owners es) (sym (latest_open-first es) ∙ e))
  | inr (v, e) ↦
      rw (e, release_latest)
        (open_owners-owner (λ _. w) es
          ∙ put-full w v (open_owners es) (sym (latest_open-first es) ∙ e))
]

open_owners-fold_event :
    (acks_tracked : Bool) (e : PauseEvent) (l : Log)
    → open_owners (fold_event acks_tracked e l).eps ≡ stack_event acks_tracked e (open_owners l.eps)
unfolding fold_event stack_event open_owners
open_owners-fold_event k (pause true) l = refl
open_owners-fold_event k (pause false) l = refl
open_owners-fold_event k ack l = open_owners-owner acked l.eps
open_owners-fold_event k resume l = open_owners-close l.eps
open_owners-fold_event k (release live) l = open_owners-release (released_to live) l.eps
open_owners-fold_event k resume_intent l = open_owners-owner intends l.eps

open_owners-fold_events :
    (acks_tracked : Bool) (es : List PauseEvent) (l : Log)
    → open_owners (fold_events acks_tracked es l).eps
      ≡ stack_events acks_tracked es (open_owners l.eps)
unfolding fold_events stack_events
open_owners-fold_events k [] l = refl
open_owners-fold_events k (e ∷ es) l =
    open_owners-fold_events k es (fold_event k e l)
    ∙ ap (stack_events k es) (open_owners-fold_event k e l)

ever-fold_events :
    (acks_tracked : Bool) (es : List PauseEvent) (l : Log)
    → (fold_events acks_tracked es l).ever ≡ (l.ever || any es is_own_pause)
unfolding fold_events fold_event
ever-fold_events k [] l = ground arith
ever-fold_events k (pause true ∷ es) l = ever-fold_events k es _ ∙ ground arith
ever-fold_events k (pause false ∷ es) l = ever-fold_events k es _
ever-fold_events k (ack ∷ es) l = ever-fold_events k es _
ever-fold_events k (resume ∷ es) l = ever-fold_events k es _
ever-fold_events k (release b ∷ es) l = ever-fold_events k es _
ever-fold_events k (resume_intent ∷ es) l = ever-fold_events k es _

abbrev pub start_owners : Bool → List Owner
start_owners legacy_paused = if legacy_paused then ours ∷ [] else []

open_owners-start : (b : Bool) → open_owners (start b).eps ≡ start_owners b
unfolding open_owners
open_owners-start true = refl
open_owners-start false = refl

-- The fold over the episodes agrees with the stack: a resume pops, and the verdict is on the top.
pub pause_episodes-stack :
    (events : List PauseEvent) (legacy_paused acks_tracked : Bool)
    → pause_episodes events legacy_paused acks_tracked
      ≡ verdict
          (first (stack_events acks_tracked events (start_owners legacy_paused)))
          (legacy_paused || any events is_own_pause)
unfolding pause_episodes
pause_episodes-stack events legacy_paused acks_tracked =
    let l = fold_events acks_tracked events (start legacy_paused) in
    let s =
      open_owners-fold_events acks_tracked events (start legacy_paused)
      ∙ ap (stack_events acks_tracked events) (open_owners-start legacy_paused) in
    let e = ever-fold_events acks_tracked events (start legacy_paused) in
    let o = latest_open-first l.eps ∙ ap first s in (λ i. verdict (o i) (e i))
