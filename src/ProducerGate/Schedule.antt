-- ===== src/ProducerGate/Schedule.antt =====
-- src/producer_gate.rs: the live producer schedule against the one that the event bound.
use pulse_cutover.Prelude.{
  ℕ, String, Bool, true, false, not, ◌&&◌, Option, none, some, List, [], ◌∷◌, ◌++◌, map,
  if◌then◌else◌, nat_eq, ◌==◌, filter, filter_map, and_then, map_option, or_else, contains,
  is_empty, map_or,
}
use pulse_cutover.Json.{Json}
use pulse_cutover.ProducerGate.{Sched, Gate, producers_of}

pub data ScheduleProblem : Type 0 where
  no_active_schedule : ScheduleProblem
  outside : List (String × String) → ScheduleProblem
  active_changed : ℕ → ℕ → ScheduleProblem
  pending_changed : Option ℕ → Option ℕ → ScheduleProblem
  proposal_pending : ℕ → ScheduleProblem

unfoldable pub same_texts : List String → List String → Bool
same_texts [] [] = true
same_texts [] (t ∷ ts) = false
same_texts (s ∷ ss) [] = false
same_texts (s ∷ ss) (t ∷ ts) = (s == t) && same_texts ss ts

-- The derived `==` of schedules.
abbrev pub same_sched : Sched → Sched → Bool
same_sched a b = nat_eq a.version b.version && same_texts a.producers b.producers

abbrev pub same_option : Option Sched → Option Sched → Bool
same_option none none = true
same_option none (some b) = false
same_option (some a) none = false
same_option (some a) (some b) = same_sched a b

abbrev pub tag : String → List String → List (String × String)
tag what names = map (λ n. (n, what)) names

-- The names of a live schedule that are not required.
abbrev pub outsiders : Gate → List String → List String
outsiders g names = filter names (λ p. not (contains g.required p))

abbrev pub problem_if : Bool → ScheduleProblem → List ScheduleProblem
problem_if true p = p ∷ []
problem_if false p = []

module _ ⦃J : Json⦄ where
  open J use {Value, index, get, as_str, as_u64, as_array}

  unfoldable pub sched_of : Value → Option Sched
  sched_of v = and_then (and_then (get v "version") as_u64) λ version.
      map_option
        (λ ps. record {
          version = version;
          producers = filter_map ps (λ p. or_else (as_str (index p "producer_name")) (as_str p));
        })
        (as_array (index v "producers"))

  unfoldable pub problems_for : Gate → Sched → Option Sched → Option Sched → List ScheduleProblem
  problems_for g active pending proposed =
      let out =
        tag "active" (outsiders g active.producers)
        ++ (tag "pending" (outsiders g (producers_of pending))
            ++ tag "proposed" (outsiders g (producers_of proposed))) in
      problem_if (not (is_empty out)) (outside out)
      ++ (problem_if (not (same_sched active g.active))
            (active_changed g.active.version active.version)
          ++ problem_if (not (same_option pending g.pending)) (
              pending_changed (map_option (λ s. s.version) g.pending)
                (map_option (λ s. s.version) pending)))

  -- What is wrong with the live schedule for this gate.
  unfoldable pub schedule_problems : Gate → Value → List ScheduleProblem
  schedule_problems g live =
      map_or (no_active_schedule ∷ [])
        (λ active.
          problems_for g active (sched_of (index live "pending"))
            (sched_of (index live "proposed")))
        (sched_of (index live "active"))

  -- Right before the freeze no schedule may be proposed at all.
  unfoldable pub freeze_schedule_problems : Value → List ScheduleProblem
  freeze_schedule_problems live =
      map_or [] (λ p. if is_empty p.producers then [] else proposal_pending p.version ∷ [])
        (sched_of (index live "proposed"))
