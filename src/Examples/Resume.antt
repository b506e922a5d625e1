-- ===== src/Examples/Resume.antt =====
-- src/fleet.rs, `resume_guard_with` on concrete fleets.
use pulse_cutover.Prelude.{◌≡◌, ◌↔◌, refl, inl, inr, true, false, some}
use pulse_cutover.Prelude.Text.{eq_ignore_ascii_case}
use pulse_cutover.Fleet.Reports.{beacons, exit_mark, producers, past_create, may_have_verified}
use pulse_cutover.Fleet.Members.{
  members, member_view, entry_of, member_beacons, freshest, usable, wanted, past_of, log_evidence,
  event_mark, mark_past, log_past, report_past,
}
use pulse_cutover.Fleet.Marks.{
  marks_trusted, default_memory, marks_not_lost, marks_state, kept_state, generation_kept,
  went_back, marks_identified, trusted_state,
}
use pulse_cutover.Fleet.Result.{is_err}
use pulse_cutover.Fleet.Resume.{
  resume_guard_with, guard_fleet, own_missing, own_report_visible, is_self, other_h, reported_past,
  account, account_all, in_ceremony, judge_quorum, quorum_of,
}
use pulse_cutover.Fleet.Marks.Memory.{default-KnowsMore}
use pulse_cutover.Fleet.Resume.Memory.{resume_guard_mono}
use pulse_cutover.Fleet.Resume.Evidence.{marked, PastEvidence-resume_guard}
use pulse_cutover.Fleet.Resume.Safety.{ResumeSafe, resume_guard_iff}
use pulse_cutover.Examples.Documents.{fleet, me, memory, aborted, was_live, member, live_mark}
use pulse_cutover.Examples.Tree.{tree_json}

aborted_resumes : is_err (resume_guard_with (some aborted) fleet (some me) false memory) ≡ false
unfolding resume_guard_with guard_fleet own_missing own_report_visible is_self other_h reported_past
    account account_all in_ceremony judge_quorum quorum_of marks_not_lost marks_state kept_state
    generation_kept went_back members member_view entry_of member_beacons freshest usable wanted
    past_of event_mark mark_past log_past report_past beacons exit_mark producers past_create
    may_have_verified eq_ignore_ascii_case log_evidence
aborted_resumes = refl

resume_guard_iff_example :
    (is_err (resume_guard_with (some aborted) fleet (some me) false memory) ≡ false)
    ↔ ResumeSafe aborted fleet (some me) false memory
resume_guard_iff_example = resume_guard_iff aborted fleet (some me) false memory

resume_guard_mono_example :
    is_err (resume_guard_with (some aborted) fleet (some me) false default_memory) ≡ false
resume_guard_mono_example =
    resume_guard_mono aborted fleet (some me) false (default-KnowsMore memory) aborted_resumes

PastEvidence-resume_guard_example :
    is_err (resume_guard_with (some was_live) fleet (some me) true memory) ≡ true
unfolding producers entry_of is_self member_view event_mark
PastEvidence-resume_guard_example =
    PastEvidence-resume_guard was_live fleet (some me) true memory (member "beta") (inr (inl refl))
      refl (marked live_mark refl refl)

marks_trusted_now : is_err (marks_trusted aborted fleet memory) ≡ false
unfolding marks_trusted trusted_state marks_state marks_identified went_back
marks_trusted_now = refl
