-- ===== src/Journal/Episodes/Ownership.antt =====
-- src/journal.rs, `pause_episodes`: the pauses that count as this ceremony's own.
use pulse_cutover.Prelude.{
  ◌≡◌, refl, sym, ap, ◌∙◌, Bool, true, false, List, [], ◌∷◌, ◌++◌, ◌||◌, any, first, All, or_false,
}
use pulse_cutover.Journal.Episodes.{
  PauseEvent, pause, ack, resume, release, resume_intent, Owner, ours, external, unknown, closing,
  verdict, pause_episodes,
}
use pulse_cutover.Journal.Episodes.Stack.{
  stack_event, stack_events, start_owners, is_own_pause, pause_episodes-stack,
}

-- A pause RPC that was confirmed, or an operator's release by this run.
abbrev pub grants : PauseEvent → Bool
grants (pause b) = false
grants ack = true
grants resume = false
grants (release live) = live
grants resume_intent = false

-- What can make a pause this ceremony's own after it intended to resume: a pause of its own, a closed
-- episode (the one below counts again), a release.
abbrev pub reclaims : PauseEvent → Bool
reclaims (pause b) = b
reclaims ack = false
reclaims resume = true
reclaims (release live) = true
reclaims resume_intent = false

abbrev NotOurs : Owner → Type 0
NotOurs ours = ⊥
NotOurs external = Unit
NotOurs unknown = Unit
NotOurs closing = Unit

ungranted_event :
    (e : PauseEvent) (ws : List Owner)
    → grants e ≡ false
    → All NotOurs ws
    → All NotOurs (stack_event true e ws)
unfolding stack_event
ungranted_event (pause true) ws h a = (tt, a)
ungranted_event (pause false) ws h a = (tt, a)
ungranted_event ack ws h a = cc
ungranted_event resume [] h a = tt
ungranted_event resume (w ∷ ws) h a = a.1
ungranted_event (release true) ws h a = cc
ungranted_event (release false) [] h a = (tt, tt)
ungranted_event (release false) (w ∷ ws) h a = (tt, a.1)
ungranted_event resume_intent [] h a = tt
ungranted_event resume_intent (ours ∷ ws) h a = absurd a.0
ungranted_event resume_intent (external ∷ ws) h a = a
ungranted_event resume_intent (unknown ∷ ws) h a = a
ungranted_event resume_intent (closing ∷ ws) h a = a

ungranted_events :
    (es : List PauseEvent) (ws : List Owner)
    → any es grants ≡ false
    → All NotOurs ws
    → All NotOurs (stack_events true es ws)
unfolding stack_events
ungranted_events [] ws h a = a
ungranted_events (e ∷ es) ws h a =
    let s = or_false (grants e) (any es grants) h in
    ungranted_events es _ s.1 (ungranted_event e ws s.0 a)

top-NotOurs :
    (ws : List Owner) (ever : Bool) → All NotOurs ws → (verdict (first ws) ever).is_ours ≡ false
top-NotOurs [] ever a = refl
top-NotOurs (ours ∷ ws) ever a = absurd a.0
top-NotOurs (external ∷ ws) ever a = refl
top-NotOurs (unknown ∷ ws) ever a = refl
top-NotOurs (closing ∷ ws) ever a = refl

-- In a journal without a legacy pause, where acknowledgements are tracked, an own pause intent alone never
-- makes the pause ours: some event must be an acknowledgement, or a release by this run.
pub pause_episodes_ungranted :
    (events : List PauseEvent)
    → any events grants ≡ false
    → (pause_episodes events false true).is_ours ≡ false
pause_episodes_ungranted events h =
    ap (λ v. v.is_ours) (pause_episodes-stack events false true)
    ∙ top-NotOurs _ false (ungranted_events events [] h tt)

-- The top of the stack is a pause that nothing but a later own pause, resume or release settles.
abbrev Unsettled : List Owner → Type 0
Unsettled [] = ⊥
Unsettled (ours ∷ ws) = ⊥
Unsettled (unknown ∷ ws) = ⊥
Unsettled (external ∷ ws) = Unit
Unsettled (closing ∷ ws) = Unit

Unsettled-event :
    (k : Bool) (e : PauseEvent) (ws : List Owner)
    → reclaims e ≡ false
    → Unsettled ws
    → Unsettled (stack_event k e ws)
unfolding stack_event
Unsettled-event k e [] h u = absurd u
Unsettled-event k e (ours ∷ ws) h u = absurd u
Unsettled-event k e (unknown ∷ ws) h u = absurd u
Unsettled-event k (pause true) (external ∷ ws) h u = cc
Unsettled-event k (pause false) (external ∷ ws) h u = tt
Unsettled-event k ack (external ∷ ws) h u = tt
Unsettled-event k resume (external ∷ ws) h u = cc
Unsettled-event k (release b) (external ∷ ws) h u = cc
Unsettled-event k resume_intent (external ∷ ws) h u = tt
Unsettled-event k (pause true) (closing ∷ ws) h u = cc
Unsettled-event k (pause false) (closing ∷ ws) h u = tt
Unsettled-event k ack (closing ∷ ws) h u = tt
Unsettled-event k resume (closing ∷ ws) h u = cc
Unsettled-event k (release b) (closing ∷ ws) h u = cc
Unsettled-event k resume_intent (closing ∷ ws) h u = tt

Unsettled-events :
    (k : Bool) (es : List PauseEvent) (ws : List Owner)
    → any es reclaims ≡ false
    → Unsettled ws
    → Unsettled (stack_events k es ws)
unfolding stack_events
Unsettled-events k [] ws h u = u
Unsettled-events k (e ∷ es) ws h u =
    let s = or_false (reclaims e) (any es reclaims) h in
    Unsettled-events k es _ s.1 (Unsettled-event k e ws s.0 u)

top-Unsettled :
    (ws : List Owner) (ever : Bool) → Unsettled ws → (verdict (first ws) ever).is_ours ≡ false
top-Unsettled [] ever u = absurd u
top-Unsettled (ours ∷ ws) ever u = absurd u
top-Unsettled (unknown ∷ ws) ever u = absurd u
top-Unsettled (external ∷ ws) ever u = refl
top-Unsettled (closing ∷ ws) ever u = refl

stack_events-append :
    (k : Bool) (es fs : List PauseEvent) (ws : List Owner)
    → stack_events k (es ++ fs) ws ≡ stack_events k fs (stack_events k es ws)
unfolding stack_events
stack_events-append k [] fs ws = refl
stack_events-append k (e ∷ es) fs ws = stack_events-append k es fs _

intent-Unsettled :
    (k ever : Bool) (ws : List Owner)
    → (verdict (first ws) ever).is_ours ≡ true
    → Unsettled (stack_event k resume_intent ws)
unfolding stack_event
intent-Unsettled k ever [] h = cc
intent-Unsettled k ever (ours ∷ ws) h = tt
intent-Unsettled k ever (unknown ∷ ws) h = cc
intent-Unsettled k ever (external ∷ ws) h = cc
intent-Unsettled k ever (closing ∷ ws) h = cc

-- Once this ceremony intends to resume its own pause, the pause does not count as its own again until
-- an own pause, a journaled resume or a release follows, whatever else is journaled.
pub pause_episodes_after_intent :
    (before after : List PauseEvent) (legacy_paused acks_tracked : Bool)
    → (pause_episodes before legacy_paused acks_tracked).is_ours ≡ true
    → any after reclaims ≡ false
    → (pause_episodes (before ++ resume_intent ∷ after) legacy_paused acks_tracked).is_ours ≡ false
unfolding stack_events
pause_episodes_after_intent before after legacy_paused acks_tracked h r =
    let ws = stack_events acks_tracked before (start_owners legacy_paused) in
    let t =
      ap (λ v. v.is_ours) (sym (pause_episodes-stack before legacy_paused acks_tracked)) ∙ h in
    let u = Unsettled-events acks_tracked after _ r (intent-Unsettled acks_tracked false ws t) in
    ap (λ v. v.is_ours)
      (pause_episodes-stack (before ++ resume_intent ∷ after) legacy_paused acks_tracked)
    ∙ ap
        (λ w.
          (verdict (first w)
            (legacy_paused || any (before ++ resume_intent ∷ after) is_own_pause)).is_ours)
        (stack_events-append acks_tracked before (resume_intent ∷ after)
          (start_owners legacy_paused))
    ∙ top-Unsettled _ false u
