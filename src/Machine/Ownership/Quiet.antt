-- ===== src/Machine/Ownership/Quiet.antt =====
-- src/machine.rs: the actions that leave the pause and what is known of it as they are.
use pulse_cutover.Prelude.{
  ℕ, String, Bool, true, false, Option, none, some, List, [], ◌∷◌, ◌++◌, ◌≡◌, refl,
}
use pulse_cutover.Json.{Json, BuildLaws, entry}
use pulse_cutover.State.{State}
use pulse_cutover.Machine.Exec.{Result, ok, err, modify}
use pulse_cutover.Machine.Exec.Along.{Along, Same, Same-Preorder, along_rules, Along-modify}
use pulse_cutover.Machine.Host.{
  Host, Record, Line, evidence_line, error_line, transition_line, Effect,
}
use pulse_cutover.Machine.Core.{
  Machine, Action, call, ask, now_ms, sleep_ms, append, mark_line, evidence, evidence_in, error,
  enter,
}
use pulse_cutover.Machine.Ownership.{marks, entry_of, pauses_of, standing}
use pulse_cutover.Machine.Ownership.Silence.{silent, Says, Says-silent}

module _ ⦃J : Json⦄ ⦃H : Host⦄ where
  abbrev pub Quiet : {A : Type 0} → Action A → Type 0
  Quiet m = Along (Same standing) m

  marks-mark :
      (l : Line) (r : Result Unit) (t : List Effect)
      → pauses_of (entry_of l) ≡ []
      → marks (mark_line l r ∷ t) ≡ marks t
  unfolding marks
  marks-mark l (ok done) t h = rw h refl
  marks-mark l (err e) t h = refl

  pub append-Quiet : (l : Line) → pauses_of (entry_of l) ≡ [] → Quiet (append l)
  unfolding append call
  append-Quiet l h = record { at = λ m. rw (marks-mark l (H.append l m.world).0 m.trace h) refl }

  pub call-Quiet :
      {A : Type 0} (f : H.World → Result A × H.World) (mark : Result A → Effect)
      → ((r : Result A) (t : List Effect) → marks (mark r ∷ t) ≡ marks t)
      → Quiet (call f mark)
  unfolding call
  call-Quiet f mark h = record { at = λ m. rw (h (f m.world).0 m.trace) refl }

  pub ask-Quiet : {A : Type 0} (f : H.World → Result A × H.World) → Quiet (ask f)
  unfolding ask
  ask-Quiet f = record { at = λ m. refl }

  pub modify-Quiet :
      (f : Machine → Machine) → ((m : Machine) → standing (f m) ≡ standing m) → Quiet (modify f)
  modify-Quiet f h = Along-modify f h

  pub now_ms-Quiet : Quiet now_ms
  unfolding now_ms
  now_ms-Quiet = record { at = λ m. refl }

  pub sleep_ms-Quiet : (ms : ℕ) → Quiet (sleep_ms ms)
  unfolding sleep_ms
  sleep_ms-Quiet ms = record { at = λ m. refl }

  module _ (laws : BuildLaws J) where
    -- Lines that a replay reads no pause event from.
    line-Quiet : (st : State) (r : Record) → Says laws r [] → Quiet (append (evidence_line st r))
    unfolding entry_of
    line-Quiet st r s = append-Quiet (evidence_line st r) (s.read _ refl)

    pub evidence-Says : (r : Record) → Says laws r [] → Quiet (evidence r)
    unfolding evidence
    evidence-Says r s = search (along_rules, line-Quiet)

    pub evidence_in-Says : (st : State) (r : Record) → Says laws r [] → Quiet (evidence_in st r)
    unfolding evidence_in
    evidence_in-Says st r s = line-Quiet st r s

    pub evidence-Quiet : (r : Record) → silent laws r ≡ true → Quiet (evidence r)
    evidence-Quiet r h = evidence-Says r (Says-silent laws r h)

    pub evidence_in-Quiet :
        (st : State) (r : Record) → silent laws r ≡ true → Quiet (evidence_in st r)
    evidence_in-Quiet st r h = evidence_in-Says st r (Says-silent laws r h)

    error-line :
        (st : State) (reason : String) (detail : Json.Value J)
        → Quiet (append (error_line st reason detail))
    unfolding entry_of silent entry
    error-line st reason detail = append-Quiet (error_line st reason detail) (
        (Says-silent laws (("message", Json.text J reason) ∷ ("detail", detail) ∷ []) refl).read _
          refl)

    pub error-Quiet : (reason : String) (detail : Json.Value J) → Quiet (error reason detail)
    unfolding error
    error-Quiet reason detail = search (along_rules, error-line)

    transition-Quiet :
        (st : State) (r : Record) → Says laws r [] → Quiet (append (transition_line st r))
    unfolding entry_of
    transition-Quiet st r s = append-Quiet (transition_line st r) (s.read _ refl)

    pub enter-Says : (st : State) (r : Record) → Says laws r [] → Quiet (enter st r)
    unfolding enter
    enter-Says st r s = search (along_rules, modify-Quiet, transition-Quiet)

    pub enter-Quiet : (st : State) (r : Record) → silent laws r ≡ true → Quiet (enter st r)
    enter-Quiet st r h = enter-Says st r (Says-silent laws r h)

pub ruleset quiet_rules = (
  along_rules, modify-Quiet, ask-Quiet, now_ms-Quiet, sleep_ms-Quiet, evidence-Quiet,
  evidence_in-Quiet, error-Quiet, enter-Quiet, refl,
)
