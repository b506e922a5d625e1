-- ===== src/Machine/Effects/Rules.antt =====
-- src/machine.rs: the actions that have no effect of a kind.
use pulse_cutover.Prelude.{
  ℕ, String, Bool, true, false, ◌≡◌, refl, ap, ◌||◌, List, [], ◌∷◌, Option, none, some, filter,
}
use pulse_cutover.Json.{Json}
use pulse_cutover.State.{State}
use pulse_cutover.Journal.Episodes.{PauseEvent}
use pulse_cutover.Machine.Exec.{Result, ok, err, modify}
use pulse_cutover.Machine.Exec.Along.{Along, Same, Same-Preorder, along_rules, Along-modify}
use pulse_cutover.Machine.Host.{
  Host, Record, Line, Effect, wrote, unwritten, saw_producer, paged, saw_whitelist, remembered,
}
use pulse_cutover.Machine.Core.{
  Machine, Action, call, ask, now_ms, sleep_ms, append, mark_line, evidence, evidence_in, error,
  enter, push_event, push_pause_event, producer_paused,
}
use pulse_cutover.Machine.Reads.{journal_pause}
use pulse_cutover.Machine.Effects.{done}

module _ ⦃J : Json⦄ where
  -- The journal, the reads, the memory and the page are not of the kind.
  pub record Ignores (kind : Effect → Bool) : Type 0 where
    pub wrote_line : (l : Line) → kind (wrote l) ≡ false
    pub unwritten_line : (l : Line) → kind (unwritten l) ≡ false
    pub read_producer : (r : Result Bool) → kind (saw_producer r) ≡ false
    pub read_whitelist : (r : Result (Option (List String))) → kind (saw_whitelist r) ≡ false
    pub page_human : (cmd : String) (r : Result String) → kind (paged cmd r) ≡ false
    pub recall : (e : PauseEvent) → kind (remembered e) ≡ false

module _ ⦃J : Json⦄ ⦃H : Host⦄ where
  -- Whether chain creation or ignition may have started, whatever the state.
  abbrev pub ignition_possible : Machine → Bool
  ignition_possible m = m.reached_ignited || m.create_chain_started

  abbrev pub seen : (Effect → Bool) → Machine → Bool × List Effect
  seen kind m = (ignition_possible m, done kind m)

  abbrev pub Spares : {A : Type 0} → (Effect → Bool) → Action A → Type 0
  Spares kind m = Along (Same (seen kind)) m

  pub spared :
      {A : Type 0} {kind : Effect → Bool} {a : Action A}
      → Spares kind a
      → (m : Machine) → done kind (a m).1 ≡ done kind m
  spared s m = ap (λ p. p.1) (s.at m)

  pub still_possible :
      {A : Type 0} {kind : Effect → Bool} {a : Action A}
      → Spares kind a
      → (m : Machine) → ignition_possible (a m).1 ≡ ignition_possible m
  still_possible s m = ap (λ p. p.0) (s.at m)

  module _ {kind : Effect → Bool} (ignores : Ignores kind) where
    mark-ignored :
        (l : Line) (r : Result Unit) (t : List Effect)
        → filter (mark_line l r ∷ t) kind ≡ filter t kind
    mark-ignored l (ok u) t = rw (ignores.wrote_line l) refl
    mark-ignored l (err e) t = rw (ignores.unwritten_line l) refl

    append-Spares : (l : Line) → Spares kind (append l)
    unfolding append call
    append-Spares l = record { at = λ m. rw (mark-ignored l (H.append l m.world).0 m.trace) refl }

    pub evidence-Spares : (r : Record) → Spares kind (evidence r)
    unfolding evidence
    evidence-Spares r = search (along_rules, append-Spares)

    pub evidence_in-Spares : (st : State) (r : Record) → Spares kind (evidence_in st r)
    unfolding evidence_in
    evidence_in-Spares st r = append-Spares _

    pub error-Spares : (reason : String) (detail : Json.Value J) → Spares kind (error reason detail)
    unfolding error
    error-Spares reason detail = search (along_rules, append-Spares)

  module _ {kind : Effect → Bool} where
    pub modify-Spares :
        (f : Machine → Machine)
        → ((m : Machine) → seen kind (f m) ≡ seen kind m)
        → Spares kind (modify f)
    modify-Spares f h = Along-modify f h

    pub ask-Spares : {A : Type 0} (f : H.World → Result A × H.World) → Spares kind (ask f)
    unfolding ask
    ask-Spares f = record { at = λ m. refl }

    pub now_ms-Spares : Spares kind now_ms
    unfolding now_ms
    now_ms-Spares = record { at = λ m. refl }

    pub sleep_ms-Spares : (ms : ℕ) → Spares kind (sleep_ms ms)
    unfolding sleep_ms
    sleep_ms-Spares ms = record { at = λ m. refl }

    pub call-Spares :
        {A : Type 0} (f : H.World → Result A × H.World) (mark : Result A → Effect)
        → ((r : Result A) → kind (mark r) ≡ false)
        → Spares kind (call f mark)
    unfolding call
    call-Spares f mark h = record { at = λ m. rw (h (f m.world).0) refl }

  module _ {kind : Effect → Bool} (ignores : Ignores kind) where
    pub enter-Spares : (st : State) (r : Record) → Spares kind (enter st r)
    unfolding enter
    enter-Spares st r = search (along_rules, modify-Spares, append-Spares)

    pub producer_paused-Spares : Spares kind producer_paused
    unfolding producer_paused
    producer_paused-Spares = call-Spares H.producer_paused saw_producer ignores.read_producer

    push-Spares : (e : PauseEvent) → Spares kind (push_pause_event e)
    unfolding push_pause_event push_event
    push-Spares e = modify-Spares (push_event e) λ m. rw (ignores.recall e) refl

    pub journal_pause-Spares : (r : Record) (e : PauseEvent) → Spares kind (journal_pause r e)
    unfolding journal_pause
    journal_pause-Spares r e = search (along_rules, evidence-Spares, push-Spares)

pub ruleset spare_rules = (
  along_rules, modify-Spares, ask-Spares, now_ms-Spares, sleep_ms-Spares, evidence-Spares,
  evidence_in-Spares, error-Spares, enter-Spares, producer_paused-Spares, journal_pause-Spares,
  refl,
)
