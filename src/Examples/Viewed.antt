-- ===== src/Examples/Viewed.antt =====
-- src/machine.rs, an abort whose relay shows that a peer was past chain creation.
use pulse_cutover.Prelude.{◌≡◌, refl, sym, ◌∙◌, inl, inr, Bool, true, Option, some, [], unwrap_or}
use pulse_cutover.Fleet.Marks.{FleetMemory}
use pulse_cutover.Fleet.Result.{is_err}
use pulse_cutover.Fleet.Reports.{producers}
use pulse_cutover.Fleet.Members.{entry_of, member_view, event_mark}
use pulse_cutover.Fleet.Resume.{resume_guard_with, is_self}
use pulse_cutover.Fleet.Resume.Evidence.{marked, PastEvidence-resume_guard}
use pulse_cutover.Fleet.Resume.Safety.{ResumeSafe-resume_guard}
use pulse_cutover.Fleet.Foreign.{
  drop_foreign_ceremonies, annotate_evidence, in_network, fix_producer, fix, is_foreign, each,
  annotate_log, blocks,
}
use pulse_cutover.Machine.Exec.{Result, ok, ◌>>=◌, on_option}
use pulse_cutover.Machine.Host.{Host, coordination_of}
use pulse_cutover.Machine.Core.{Machine, ask}
use pulse_cutover.Machine.View.{fleet_status, rewritten, prepared}
use pulse_cutover.Machine.Guard.{needs_resume_guard, has_event}
use pulse_cutover.Machine.Guard.Safe.{SafeView}
use pulse_cutover.Machine.Abort.{abort_guarded}
use pulse_cutover.Machine.Abort.Viewed.{abort_guarded_unsafe}
use pulse_cutover.Machine.Effects.{undoes, done}
use pulse_cutover.Examples.Documents.{fleet, me, was_live, member, live_mark}
use pulse_cutover.Examples.Desk.{desk_host, desk_config, paused_desk, frozen_machine}
use pulse_cutover.Examples.Tree.{Tree, nil, tree_json}

instance abbrev fleet_host : Host
fleet_host = record desk_host {
  cfg = record desk_config {
    network = fleet.network;
    event_id = fleet.event_id;
    roster = fleet.roster;
    fleet_quorum = fleet.fleet_quorum;
    report_max_age_secs = fleet.report_max_age_secs;
    me = some me;
  };
}

abbrev frozen_member : Machine ⦃H = fleet_host⦄
frozen_member =
    record (frozen_machine ⦃H = fleet_host⦄ (record paused_desk { relay = some was_live })) {
      resolved_h = some 1000;
    }

abbrev shown : Tree
shown = unwrap_or (prepared ⦃H = fleet_host⦄ (some 1000) was_live) nil

shown_read : (fleet_status ⦃H = fleet_host⦄ 5 frozen_member).0 ≡ ok (some shown)
unfolding fleet_status rewritten prepared ask on_option ◌>>=◌ drop_foreign_ceremonies
    annotate_evidence in_network fix_producer fix is_foreign each annotate_log blocks
shown_read = refl

shown_refused :
    (signed : Bool) (mem : FleetMemory)
    → is_err (resume_guard_with (some shown) fleet (some me) signed mem) ≡ true
unfolding producers entry_of is_self member_view event_mark prepared drop_foreign_ceremonies
    annotate_evidence in_network fix_producer fix is_foreign each annotate_log blocks
shown_refused signed mem =
    PastEvidence-resume_guard shown fleet (some me) signed mem (member "beta") (inr (inl refl)) refl
      (marked live_mark refl refl)

abbrev read_as : Tree → Result (Option Tree)
read_as doc = ok (some doc)

same_document : (a b : Tree) → read_as a ≡ read_as b → a ≡ b
same_document a b e = cc e

shown_unsafe : SafeView ⦃H = fleet_host⦄ frozen_member → ⊥
shown_unsafe v =
    let same = same_document shown v.document (sym shown_read ∙ v.read) in
    let accepted =
      ResumeSafe-resume_guard v.document (coordination_of fleet_host.cfg) (some me) v.signed
        v.memory v.safe in
    cc (shown_refused v.signed v.memory, accepted, same)

abort_guarded_unsafe_example :
    done ⦃H = fleet_host⦄ undoes (abort_guarded ⦃H = fleet_host⦄ "test" nil frozen_member).1 ≡ []
unfolding needs_resume_guard has_event
abort_guarded_unsafe_example =
    abort_guarded_unsafe ⦃H = fleet_host⦄ "test" nil frozen_member refl
      λ views. shown_unsafe views.0
