-- ===== src/Config/Counted.antt =====
-- src/config.rs, `check_roster`: the entries for one instance.
use pulse_cutover.Prelude.{
  ◌≤◌, ◌≡◌, refl, sym, ◌∙◌, String, Bool, true, ◌&&◌, Option, none, some, List, [], ◌∷◌, ◌==◌,
  eq_iff, find, filter, length, is_none_or, arith, Bool-cases, Option-cases, inl, inr,
}
use pulse_cutover.Config.{RosterMember}
use pulse_cutover.Config.Roster.{is_duplicate, check_roster, same_instance}

-- The entry stands for the instance of the producer.
abbrev pub stands_for : String → String → RosterMember → Bool
stands_for producer instance_id m =
    (m.producer == producer) && is_none_or m.instance_id (λ i. i == instance_id)

same_instance_of :
    (a b : Option String) (i : String)
    → is_none_or a (λ x. x == i) ≡ true
    → is_none_or b (λ x. x == i) ≡ true
    → same_instance a b ≡ true
unfolding same_instance
same_instance_of none b i h k = refl
same_instance_of (some a) none i h k = refl
same_instance_of (some a) (some b) i h k =
    (eq_iff a b).1 ((eq_iff a i).0 h ∙ sym ((eq_iff b i).0 k))

both_duplicate :
    (producer i : String) (m n : RosterMember)
    → stands_for producer i m ≡ true
    → stands_for producer i n ≡ true
    → is_duplicate m n ≡ true
unfolding is_duplicate
both_duplicate producer i m n h k =
    let p : m.producer == n.producer ≡ true = (eq_iff m.producer n.producer).1 (
      (eq_iff m.producer producer).0 (ground arith)
      ∙ sym ((eq_iff n.producer producer).0 (ground arith))) in
    rw p (same_instance_of m.instance_id n.instance_id i (ground arith) (ground arith))

none_stands :
    (producer i : String) (m : RosterMember) (rest : List RosterMember)
    → stands_for producer i m ≡ true
    → find rest (is_duplicate m) ≡ none
    → filter rest (stands_for producer i) ≡ []
none_stands producer i m [] h e = refl
none_stands producer i m (n ∷ rest) h e = elim (Bool-cases (is_duplicate m n)) [
  | inl d ↦ absurd (cc (rw d at e))
  | inr d ↦ elim (Bool-cases (stands_for producer i n)) [
    | inl s ↦ absurd (cc (both_duplicate producer i m n h s, d))
    | inr s ↦ rw s (none_stands producer i m rest h (rw d at e))
  ]
]

-- In an accepted roster at most one entry stands for one instance of a producer.
pub check_roster_once :
    (roster : List RosterMember) (producer instance_id : String)
    → check_roster roster ≡ none
    → length (filter roster (stands_for producer instance_id)) ≤ 1
unfolding check_roster
check_roster_once [] producer i h = omega arith
check_roster_once (m ∷ rest) producer i h = elim (Option-cases (find rest (is_duplicate m))) [
  | inr (other, e) ↦ cc (rw (e, check_roster) at h)
  | inl e ↦ elim (Bool-cases (stands_for producer i m)) [
    | inl s ↦ rw (s, none_stands producer i m rest s e) (omega arith)
    | inr s ↦ rw s (check_roster_once rest producer i (rw (e, check_roster) at h))
  ]
]
