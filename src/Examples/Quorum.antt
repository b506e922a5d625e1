-- ===== src/Examples/Quorum.antt =====
-- src/fleet.rs, `quorum_unreachable_with` and `live_view` on concrete fleets.
use pulse_cutover.Version.{agent_honours_exit_marks}
use pulse_cutover.Fleet.Members.{members, log_evidence}
use pulse_cutover.Prelude.{
  ℕ, ◌≤◌, ◌<◌, ◌≡◌, refl, String, true, false, some, List, [], ◌∷◌, length, filter, is_none_or,
}
use pulse_cutover.Prelude.Text.{eq_ignore_ascii_case, to_ascii_lowercase}
use pulse_cutover.Fleet.Reports.{
  past_create, producers, exit_mark, may_have_verified, never_verified,
}
use pulse_cutover.Fleet.Groups.{
  Group, unique_best, entry_update, gather, gather_one, insert_sorted, update,
}
use pulse_cutover.Fleet.Resume.{quorum_of, is_self, own_report_visible}
use pulse_cutover.Fleet.Marks.{
  seen_by_report, marks_identified, marks_state, marks_trusted, trusted_state, went_back,
  peers_seen_verified,
}
use pulse_cutover.Fleet.Quorum.{
  Out, Unreachable, is_me, not_out, quorum_unreachable_with, agent_unfit, conclude, durably_out,
  unreachable_for, event_reports, out_by_entry, reports_fail,
}
use pulse_cutover.Fleet.Quorum.Safety.{quorum_unreachable-lt}
use pulse_cutover.Fleet.Quorum.Reports.{not_out-unseen}
use pulse_cutover.Fleet.Live.{live_view, counted_head, judge_live, live_groups, live_member}
use pulse_cutover.Fleet.Live.Safety.{on_block, live_view-quorum}
use pulse_cutover.Examples.Documents.{fleet, me, memory, two_out, live, report}
use pulse_cutover.Examples.Tree.{str, nil, tree_json}

abbrev out_entry : String → Out
out_entry name = record { producer = name; state = str "ABORTED"; last_error = nil }

abbrev pub proof : Unreachable
proof = record {
  roster = 3;
  quorum = 2;
  durably_out = out_entry "beta" ∷ out_entry "gamma" ∷ [];
  at_most_reachable = 1;
}

pub two_out_unreachable : quorum_unreachable_with two_out fleet (some me) 1000 memory ≡ some proof
unfolding quorum_unreachable_with marks_trusted trusted_state marks_state marks_identified went_back
    quorum_of unreachable_for own_report_visible members agent_unfit agent_honours_exit_marks
    is_self log_evidence past_create conclude durably_out eq_ignore_ascii_case is_me out_by_entry
    exit_mark never_verified peers_seen_verified may_have_verified reports_fail event_reports
    not_out
two_out_unreachable = refl

quorum_unreachable-lt_example : length (filter fleet.roster (is_me me)) < quorum_of fleet
quorum_unreachable-lt_example =
    quorum_unreachable-lt two_out fleet (some me) 1000 memory proof (is_me me) two_out_unreachable
      (λ who event rm e f d. cc (e, d.other))

not_out-unseen_example :
    (seen_by_report "ev1" (report "i-beta" "ABORTED") ≡ false)
    × (past_create (report "i-beta" "ABORTED") ≡ false)
unfolding not_out past_create
not_out-unseen_example = not_out-unseen (report "i-beta" "ABORTED") "ev1" 1000 refl

live_healthy : (live_view (some live) fleet 1000 (some "B1") (some "0A")).healthy ≡ true
unfolding live_view quorum_of judge_live unique_best live_groups gather members gather_one
    live_member producers counted_head entry_update insert_sorted to_ascii_lowercase update
    eq_ignore_ascii_case
live_healthy = refl

live_view-quorum_example :
    (k : String) × ((live_view (some live) fleet 1000 (some "B1") (some "0A")).after_cut_id
      ≡ some k)
    × (quorum_of fleet ≤ on_block live fleet 1000 (some "B1") k)
    × ((j : String) → quorum_of fleet ≤ on_block live fleet 1000 (some "B1") j → j ≡ k)
    × (is_none_or (some "0A") (λ ours. eq_ignore_ascii_case ours k) ≡ true)
live_view-quorum_example = live_view-quorum live fleet 1000 (some "B1") (some "0A") live_healthy

abbrev group : String → List String → Group String ℕ
group k ms = record { key = k; members = ms; value = 0 }
