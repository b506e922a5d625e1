-- ===== src/Examples/FleetGate.antt =====
-- src/machine.rs, `fleet_gate` and the memory of the fleet on concrete fleets.
use pulse_cutover.Prelude.{
  ℕ, ◌≤◌, ◌≡◌, refl, inl, inr, String, true, false, some, none, List, [], ◌∷◌, length, filter, In,
  unwrap_or,
}
use pulse_cutover.Prelude.Text.{eq_ignore_ascii_case}
use pulse_cutover.Fleet.Reports.{
  Beacon, past_create, producers, exit_mark, may_have_verified, beacons,
}
use pulse_cutover.Fleet.Members.{
  members, member_view, entry_of, member_beacons, freshest, usable, wanted, past_of, event_mark,
  mark_past, log_past, report_past, log_evidence,
}
use pulse_cutover.Fleet.Result.{is_err}
use pulse_cutover.Fleet.Marks.{
  marks_not_lost, marks_state, kept_state, generation_kept, went_back, peers_seen_verified,
  verified_peer, seen_by_report,
}
use pulse_cutover.Fleet.Resume.{
  resume_guard_with, guard_fleet, own_missing, own_report_visible, is_self, other_h, reported_past,
  account, account_all, in_ceremony, judge_quorum, quorum_of,
}
use pulse_cutover.Fleet.Memory.{
  marked_names, remember_marks, journaled_exit_marks, merged_fleet_memory, merge_marks, merge_state,
  journaled_fleet_memory, journaled_from, fold_line, fold_state,
}
use pulse_cutover.Fleet.Memory.Grows.{merged_fleet_memory-resume_guard}
use pulse_cutover.Fleet.Gate.{
  Ours, gate_open, agreeing, counts_member, counts_entry, reports_of, is_marked, is_fresh, agrees,
  same_evidence, has_failing_health, exclusion,
}
use pulse_cutover.Fleet.Gate.Exclusion.{exclusion-counts_member}
use pulse_cutover.Fleet.Gate.Agreement.{Counted, gate_open-Counted}
use pulse_cutover.Fleet.Gate.Unreachable.{quorum_unreachable-gate_open}
use pulse_cutover.Examples.Documents.{
  ◌:=◌, fleet, me, memory, two_out, aborted, member, entry, report_with, object, list,
}
use pulse_cutover.Examples.Quorum.{proof, two_out_unreachable}
use pulse_cutover.Examples.Tree.{
  Tree, same_tree, nil, flag, num, str, arr, obj, is_nil, tree_json, tree_items, get_tree,
}

abbrev evidence : List (String × Tree)
evidence = ("snapshot_sha256" := str "aa") ∷ ("fingerprints_digest" := str "bb") ∷ []

abbrev ours : Ours
ours = record { evidence = object evidence; upstream = false }

abbrev verified_report : String → Tree
verified_report id = report_with id "VERIFIED" [] evidence

-- Two of three members are VERIFIED with this node's evidence.
abbrev verified_fleet : List Tree
verified_fleet =
    entry "alpha" (verified_report "i-alpha") []
    ∷ entry "beta" (verified_report "i-beta") []
    ∷ entry "gamma" (report_with "i-gamma" "FROZEN" [] []) []
    ∷ []

verified_opens : gate_open fleet ours [] verified_fleet ≡ true
unfolding gate_open agreeing counts_member counts_entry reports_of is_marked is_fresh agrees
    same_evidence has_failing_health entry_of exit_mark beacons quorum_of same_tree
verified_opens = refl

gate_open-Counted_example :
    (quorum_of fleet ≤ length (filter fleet.roster (counts_member fleet ours [] verified_fleet)))
    × In (member "beta") fleet.roster
    × Counted fleet ours [] verified_fleet (member "beta")
unfolding counts_member counts_entry reports_of is_marked is_fresh agrees same_evidence
    has_failing_health entry_of exit_mark beacons same_tree
gate_open-Counted_example =
    gate_open-Counted fleet ours [] verified_fleet (member "beta") refl verified_opens
      (inr (inl refl))

abbrev sent : Beacon
sent = record { report = verified_report "i-beta"; age_ms = some 1000; conflict = false }

null_alone : (a b : Tree) → same_tree a b ≡ true → is_nil a ≡ true → is_nil b ≡ true
unfolding same_tree
null_alone nil nil h n = refl
null_alone nil (flag y) h n = cc h
null_alone nil (num y) h n = cc h
null_alone nil (str y) h n = cc h
null_alone nil (arr y) h n = cc h
null_alone nil (obj y) h n = cc h
null_alone (flag x) b h n = cc n
null_alone (num x) b h n = cc n
null_alone (str x) b h n = cc n
null_alone (arr x) b h n = cc n
null_alone (obj x) b h n = cc n

no_reason : exclusion fleet ours sent ≡ none
unfolding exclusion is_fresh same_tree
no_reason = refl

exclusion-counts_member_example : counts_member fleet ours [] verified_fleet (member "beta") ≡ true
unfolding is_marked entry_of exit_mark beacons
exclusion-counts_member_example =
    exclusion-counts_member null_alone fleet ours [] verified_fleet (member "beta")
      (entry "beta" (verified_report "i-beta") []) sent refl refl refl refl (inl refl) refl refl
      refl refl refl refl no_reason

abbrev two_out_networks : List Tree
two_out_networks = unwrap_or (tree_items (unwrap_or (get_tree two_out "networks") nil)) []

-- The marks that a journal had recorded before.
abbrev known_marks : List String
known_marks =
    journaled_exit_marks
      (object (("event_id" := str "ev1") ∷ ("exit_marks_seen" := list (str "gamma" ∷ [])) ∷ [])
        ∷ [])
      "ev1"

abbrev seen_marks : List String
seen_marks = remember_marks known_marks (marked_names "testnet" "ev1" two_out_networks)

quorum_unreachable-gate_open_example : gate_open fleet ours seen_marks verified_fleet ≡ false
quorum_unreachable-gate_open_example =
    quorum_unreachable-gate_open two_out fleet (some me) 1000 memory proof "ev1" ours known_marks
      seen_marks verified_fleet two_out_unreachable refl λ n h. h

-- A line of the journal that holds the state of the relay's marks.
abbrev marks_line : ℕ → Tree
marks_line generation = object (
    ("event_id" := str "ev1")
    ∷ ("relay_marks_state"
        := object (("state_id" := str "m1") ∷ ("generation" := num generation) ∷ []))
    ∷ [])

merged_resumes :
    is_err (
      resume_guard_with
        (some aborted)
        fleet
        (some me)
        false
        (merged_fleet_memory fleet
          (some me)
          aborted
          (journaled_fleet_memory (marks_line 4 ∷ marks_line 6 ∷ []) "ev1")).0)
    ≡ false
unfolding resume_guard_with guard_fleet own_missing own_report_visible is_self other_h reported_past
    account account_all in_ceremony judge_quorum quorum_of marks_not_lost marks_state kept_state
    generation_kept went_back members member_view entry_of member_beacons freshest usable wanted
    past_of event_mark mark_past log_past report_past beacons exit_mark producers past_create
    may_have_verified eq_ignore_ascii_case log_evidence merged_fleet_memory merge_marks merge_state
    journaled_fleet_memory journaled_from fold_line fold_state peers_seen_verified verified_peer
    seen_by_report
merged_resumes = refl

merged_fleet_memory-resume_guard_example :
    is_err (
      resume_guard_with
        (some aborted)
        fleet
        (some me)
        false
        (journaled_fleet_memory (marks_line 4 ∷ []) "ev1"))
    ≡ false
merged_fleet_memory-resume_guard_example =
    merged_fleet_memory-resume_guard aborted aborted fleet (some me) false "ev1" (marks_line 4 ∷ [])
      (marks_line 6 ∷ []) merged_resumes
