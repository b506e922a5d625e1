-- ===== src/State.antt =====
-- src/state.rs: the states of the ceremony and their texts in the journal.
use pulse_cutover.Prelude.{
  ◌≡◌, ◌↔◌, refl, ap, ◌∙◌, inl, inr, Bool-cases, eq_iff, String, Option, none, some, ◌==◌,
  if◌then◌else◌,
}

pub data State : Type 0 where
  armed frozen snapshotted verified ignited flipped live aborted halted stranded : State

unfoldable pub as_str : State → String
as_str armed = "ARMED"
as_str frozen = "FROZEN"
as_str snapshotted = "SNAPSHOTTED"
as_str verified = "VERIFIED"
as_str ignited = "IGNITED"
as_str flipped = "FLIPPED"
as_str live = "LIVE"
as_str aborted = "ABORTED"
as_str halted = "HALTED"
as_str stranded = "STRANDED"

-- The match of the source, its own texts; `none` is the error.
unfoldable pub from_str : String → Option State
from_str s =
    if s == "ARMED"
    then some armed
    else if s == "FROZEN"
    then some frozen
    else if s == "SNAPSHOTTED"
    then some snapshotted
    else if s == "VERIFIED"
    then some verified
    else if s == "IGNITED"
    then some ignited
    else if s == "FLIPPED"
    then some flipped
    else if s == "LIVE"
    then some live
    else if s == "ABORTED"
    then some aborted
    else if s == "HALTED"
    then some halted
    else if s == "STRANDED"
    then some stranded
    else none

text_read : (st : State) → from_str (as_str st) ≡ some st
unfolding from_str as_str
text_read armed = refl
text_read frozen = refl
text_read snapshotted = refl
text_read verified = refl
text_read ignited = refl
text_read flipped = refl
text_read live = refl
text_read aborted = refl
text_read halted = refl
text_read stranded = refl

-- A read text is the state's: one arm of the match, and the rest of it.
arm_text :
    (s t : String) (found st : State) (rest : Option State)
    → as_str found ≡ t
    → (rest ≡ some st → s ≡ as_str st)
    → (if s == t then some found else rest) ≡ some st
    → s ≡ as_str st
arm_text s t found st rest k later h = elim (Bool-cases (s == t)) [
  | inl e ↦
      let same : some found ≡ some st = rw e at h in
      let at_text : s ≡ t = (eq_iff s t).0 e in cc (same, at_text, k)
  | inr e ↦ later (rw e at h)
]

read_text : (s : String) (st : State) → from_str s ≡ some st → s ≡ as_str st
unfolding from_str as_str
read_text s st = arm_text s "ARMED" armed st _ refl (
    arm_text s "FROZEN" frozen st _ refl (
      arm_text s "SNAPSHOTTED" snapshotted st _ refl (
        arm_text s "VERIFIED" verified st _ refl (
          arm_text s "IGNITED" ignited st _ refl (
            arm_text s "FLIPPED" flipped st _ refl (
              arm_text s "LIVE" live st _ refl (
                arm_text s "ABORTED" aborted st _ refl (
                  arm_text s "HALTED" halted st _ refl
                    (arm_text s "STRANDED" stranded st none refl (λ h. cc h))))))))))

-- The two tables agree: a text is read as a state exactly when it is the text that the state is written as.
pub from_str-as_str : (s : String) (st : State) → (from_str s ≡ some st) ↔ (s ≡ as_str st)
from_str-as_str s st = (read_text s st, λ e. ap from_str e ∙ text_read st)
