-- ===== src/ProducerGate/Cover.antt =====
-- src/producer_gate.rs: `check`, `schedule_problems` and `relay_problems` together.
use pulse_cutover.Prelude.{
  ℕ, ◌≡◌, ◌∙◌, refl, sym, subst, inl, inr, String, Bool, true, false, not, Option, none, some, List,
  [], ◌∷◌, ◌++◌, ◌==◌, eq_iff, contains, is_empty, All, Option-cases, or_true,
}
use pulse_cutover.Json.{Json}
use pulse_cutover.Config.{RosterMember}
use pulse_cutover.ProducerGate.{Gate, Sched, check, producers_of, roster_names, member_of}
use pulse_cutover.ProducerGate.Checked.{check-Checked, none_left, contains-append}
use pulse_cutover.ProducerGate.Schedule.{
  ScheduleProblem, sched_of, schedule_problems, problems_for, problem_if, same_sched, same_option,
  tag,
}
use pulse_cutover.ProducerGate.Relay.{gate_producers, relay_problems}
use pulse_cutover.ProducerGate.Ready.{MemberReady, relay_problems_iff}
use pulse_cutover.ProducerGate.Relay.Tests.{not-false}

append-nil_parts : {A : Type 0} (xs ys : List A) → (xs ++ ys) ≡ [] → (xs ≡ []) × (ys ≡ [])
append-nil_parts [] ys h = (refl, h)
append-nil_parts (x ∷ xs) ys h = cc

tag-nil : (what : String) (xs : List String) → tag what xs ≡ [] → is_empty xs ≡ true
tag-nil what [] h = refl
tag-nil what (x ∷ xs) h = cc

pub contains-All :
    (P : String → Type 0) (xs : List String) (n : String) → All P xs → contains xs n ≡ true → P n
contains-All P [] n a c = cc
contains-All P (x ∷ xs) n a c = elim (or_true (x == n) (contains xs n) c) [
  | inl e ↦ subst P ((eq_iff x n).0 e) a.0
  | inr k ↦ contains-All P xs n a.1 k
]

problem_if-nil : (b : Bool) (p : ScheduleProblem) → problem_if b p ≡ [] → b ≡ false
problem_if-nil true p h = cc
problem_if-nil false p h = refl

nil_of_not : {A : Type 0} (xs : List A) → not (is_empty xs) ≡ false → xs ≡ []
nil_of_not [] h = refl
nil_of_not (x ∷ xs) h = cc

-- The names of the live schedules.
abbrev pub live_names : Sched → Option Sched → Option Sched → List String
live_names active pending proposed =
    active.producers ++ (producers_of pending ++ producers_of proposed)

module _ ⦃J : Json⦄ where
  open J use {Value, index}

  problems_for-required :
      (g : Gate) (active : Sched) (pending proposed : Option Sched)
      → problems_for g active pending proposed ≡ []
      → (same_sched active g.active ≡ true)
        × (same_option pending g.pending ≡ true)
        × ((n : String)
            → contains (live_names active pending proposed) n ≡ true
            → contains g.required n ≡ true)
  unfolding problems_for
  problems_for-required g active pending proposed h =
      let a = append-nil_parts _ _ h in
      let b = append-nil_parts _ _ a.1 in
      let out = nil_of_not _ (problem_if-nil _ _ a.0) in
      let c = append-nil_parts _ _ out in
      let d = append-nil_parts _ _ c.1 in
      let req = λ (n : String). contains g.required n in
      let e1 = none_left active.producers req in
      let e2 = none_left (producers_of pending) req in
      let e3 = none_left (producers_of proposed) req in
      (
        not-false _ (problem_if-nil (not (same_sched active g.active)) _ b.0),
        not-false _ (problem_if-nil (not (same_option pending g.pending)) _ b.1),
        λ n k.
            elim (or_true (contains active.producers n) _
              (sym (contains-append active.producers _ n) ∙ k)) [
                | inl i ↦ e1 n (tag-nil "active" _ c.0) i
                | inr i ↦
                    elim (or_true (contains (producers_of pending) n) _
                      (sym (contains-append (producers_of pending) _ n) ∙ i)) [
                        | inl j ↦ e2 n (tag-nil "pending" _ d.0) j
                        | inr j ↦ e3 n (tag-nil "proposed" _ d.1) j
                      ]
              ],
      )

  -- The live schedule is the bound one, and names only required producers.
  pub schedule_problems-required :
      (g : Gate) (live : Value)
      → schedule_problems g live ≡ []
      → (active : Sched) × (sched_of (index live "active") ≡ some active)
        × (same_sched active g.active ≡ true)
        × (same_option (sched_of (index live "pending")) g.pending ≡ true)
        × ((n : String)
            → contains
                (live_names active
                  (sched_of (index live "pending"))
                  (sched_of (index live "proposed")))
                n
              ≡ true
            → contains g.required n ≡ true)
  unfolding schedule_problems
  schedule_problems-required g live h = elim (Option-cases (sched_of (index live "active"))) [
    | inl e ↦ cc (rw e at h)
    | inr (active, e) ↦
        let (a, p, r) =
          problems_for-required g active (sched_of (index live "pending"))
            (sched_of (index live "proposed")) (rw e at h) in
        (active, e, a, p, r)
  ]

  -- With an accepted gate, an unchanged live schedule and a green relay check, every producer of the
  -- live active, pending or proposed schedule is covered by a roster member that has a ready report.
  pub gate_covers :
      (digest : String → String) (g : Gate) (roster : List RosterMember) (live status : Value)
      (network event_id : String) (max_age_ms : ℕ) (states : List String) (active : Sched)
      (n : String)
      → check digest g roster ≡ none
      → schedule_problems g live ≡ []
      → relay_problems g status network event_id max_age_ms states ≡ []
      → sched_of (index live "active") ≡ some active
      → contains
          (live_names active (sched_of (index live "pending")) (sched_of (index live "proposed")))
          n
        ≡ true
      → (contains (roster_names roster) (member_of g n) ≡ true)
        × MemberReady g event_id max_age_ms states (gate_producers status network) (member_of g n)
  gate_covers digest g roster live status network event_id max_age_ms states active n ok live_ok
        relay_ok e i =
      let s = schedule_problems-required g live live_ok in
      let same : s.0 ≡ active = cc (s.1, e) in
      let i' =
        subst
          (λ a.
            contains
              (live_names a (sched_of (index live "pending")) (sched_of (index live "proposed"))) n
            ≡ true)
          (sym same) i in
      let required = s.4 n i' in
      (
        (check-Checked digest g roster ok).covered n required,
        contains-All
            (λ m.
              MemberReady g event_id max_age_ms states (gate_producers status network)
                (member_of g m))
            g.required n
            ((relay_problems_iff g event_id max_age_ms states status network).0 relay_ok) required,
      )
