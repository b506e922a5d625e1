-- ===== src/ProducerGate/Relay.antt =====
-- src/producer_gate.rs: the members' beacon reports on the relay, as the gate reads them.
pub mod Tests
use pulse_cutover.Prelude.{
  ℕ, String, Bool, true, false, not, ◌&&◌, ◌||◌, Option, none, some, List, [], ◌∷◌, ◌++◌, map,
  if◌then◌else◌, nat_eq, ltb, ◌==◌, filter, filter_map, and_then, map_option, or_else, contains,
  is_empty, map_or, is_some_and, is_none_or, unwrap_or, find, any, length, eq_ignore_ascii_case,
}
use pulse_cutover.Json.{Json}
use pulse_cutover.Version.{version_at_least}
use pulse_cutover.Fleet.Reports.{is_true, is_text, is_num}
use pulse_cutover.ProducerGate.{Gate, member_of}

-- What one report lacks: one constructor for each text of the code.
pub data Lack : Type 0 where
  identity_conflict stale other_event other_gate : Lack
  wrong_state : String → Lack
  armed_for : Option ℕ → Lack
  old_agent : Option String → Lack
  check_not_green : String → Lack

pub data MemberProblem : Type 0 where
  no_report no_producer_report : MemberProblem
  lacks : List Lack → MemberProblem

abbrev pub lack_if : Bool → Lack → List Lack
lack_if true l = l ∷ []
lack_if false l = []

module _ ⦃J : Json⦄ where
  open J use {Value, index, as_str, as_u64, as_bool, as_array, is_null}

  pub record GateReport : Type 0 where
    pub report : Value
    pub age_ms : Option ℕ
    pub conflict : Bool
    pub silent : Bool

  abbrev gate_report : Value → GateReport
  gate_report b = record {
    report = index b "report";
    age_ms = as_u64 (index b "age_ms");
    conflict = unwrap_or (as_bool (index b "conflict")) false;
    silent = unwrap_or (as_bool (index b "silent")) false;
  }

  unfoldable pub gate_reports : Value → List GateReport
  gate_reports p =
      let v = map_or [] (map gate_report) (as_array (index p "beacons")) in
      if is_empty v && not (is_null (index p "report")) then gate_report p ∷ [] else v

  -- A report of another role is passed over.
  abbrev pub other_role : Value → Bool
  other_role r = is_some_and (as_str (index r "role")) (λ x. not (x == "producer"))

  abbrev pub check_green : Value → String → Bool
  check_green r c =
      any (map_or [] (λ xs. xs) (as_array (index r "checks")))
        λ x. is_text (as_str (index x "name")) c && is_true (as_bool (index x "ok"))

  abbrev pub agent_version_of : Value → Option String
  agent_version_of r =
      or_else (as_str (index (index (index r "ceremony") "evidence") "agent_version"))
        (as_str (index r "agent_version"))

  unfoldable pub lacks_of : Gate → String → ℕ → List String → GateReport → List Lack
  lacks_of g event_id max_age_ms states b =
      let r = b.report in
      let ce = index r "ceremony" in
      let st = unwrap_or (as_str (index ce "state")) "none" in
      let ev = index ce "evidence" in
      lack_if b.conflict identity_conflict
      ++ (lack_if (b.silent || is_none_or b.age_ms (λ a. ltb max_age_ms a)) stale
          ++ (lack_if (not (is_text (as_str (index (index r "coord") "event_id")) event_id))
                other_event
              ++ (lack_if (not (contains states st)) (wrong_state st)
                  ++ (lack_if (not (is_num (as_u64 (index ev "h")) g.h))
                        (armed_for (as_u64 (index ev "h")))
                      ++ (lack_if
                            (not (
                              is_some_and (as_str (index ev "producer_gate_sha256"))
                                (λ s. eq_ignore_ascii_case s g.sha256)))
                            other_gate
                          ++ (lack_if
                                (not (
                                  is_some_and (agent_version_of r)
                                    (λ v. version_at_least v g.min_version)))
                                (old_agent (agent_version_of r))
                              ++ (lack_if (not (check_green r "admission_lock"))
                                    (check_not_green "admission_lock")
                                  ++ lack_if (not (check_green r "admission_lock_probe"))
                                      (check_not_green "admission_lock_probe"))))))))

  -- The candidate with the fewest lacks, the first of equals.
  abbrev pub better : Option (List Lack) → List Lack → Option (List Lack)
  better none why = some why
  better (some b) why = if ltb (length why) (length b) then some why else some b

  abbrev pub blame : Option (List Lack) → MemberProblem
  blame none = no_producer_report
  blame (some why) = lacks why

  -- The loop over a member's reports; `none` when one satisfies the gate.
  unfoldable pub first_ready :
      Gate → String → ℕ → List String → Option (List Lack) → List GateReport → Option MemberProblem
  first_ready g event_id max_age_ms states best [] = some (blame best)
  first_ready g event_id max_age_ms states best (b ∷ bs) =
      let why = lacks_of g event_id max_age_ms states b in
      let skip = first_ready g event_id max_age_ms states best bs in
      let next = first_ready g event_id max_age_ms states (better best why) bs in
      if other_role b.report then skip else if is_empty why then none else next

  unfoldable pub member_problem :
      List Value → String → Gate → String → ℕ → List String → Option MemberProblem
  member_problem producers member g event_id max_age_ms states =
      elim (find producers (λ p. is_text (as_str (index p "name")) member)) [
        | none ↦ some no_report
        | some p ↦
            if is_empty (gate_reports p)
            then some no_report
            else first_ready g event_id max_age_ms states none (gate_reports p)
      ]

  flat : List (List Value) → List Value
  flat [] = []
  flat (vs ∷ vss) = vs ++ flat vss

  -- The producers of every network entry with the id.
  unfoldable pub gate_producers : Value → String → List Value
  unfolding flat
  gate_producers status network = flat (
      map (λ n. unwrap_or (as_array (index n "producers")) [])
        (filter (unwrap_or (as_array (index status "networks")) [])
          (λ n. is_text (as_str (index n "id")) network)))

  pub record RelayProblem : Type 0 where
    pub producer : String
    pub member : String
    pub why : MemberProblem

  -- One entry for each required name whose member is not shown ready. The code keeps each member's
  -- verdict, which depends on the member alone.
  unfoldable pub relay_problems :
      Gate → Value → String → String → ℕ → List String → List RelayProblem
  relay_problems g status network event_id max_age_ms states = filter_map g.required λ name.
      map_option (λ why. record { producer = name; member = member_of g name; why = why })
        (member_problem (gate_producers status network) (member_of g name) g event_id max_age_ms
          states)
