-- ===== src/Machine/Ownership/Views.antt =====
-- src/machine.rs, `fleet_status` and `note_fleet_view`: their records say nothing of the pause.
use pulse_cutover.Prelude.{ℕ, zero, suc, String, Option, List}
use pulse_cutover.Json.{Json, BuildLaws, entry}
use pulse_cutover.Fleet.Marks.{FleetMemory}
use pulse_cutover.Journal.Episodes.{PauseEvent}
use pulse_cutover.Machine.Exec.Along.{Kept-Preorder, Along-bind, Along-on_option}
use pulse_cutover.Machine.Host.{Host}
use pulse_cutover.Machine.View.{
  rewritten, fleet_status, note_state, note_marks, note_view, note_fleet_view,
}
use pulse_cutover.Machine.Guard.{is_abort_signed, view_memory}
use pulse_cutover.Machine.Ownership.Silence.{silent}
use pulse_cutover.Machine.Ownership.Law.{Keeps, keeps_rules}

module _ ⦃J : Json⦄ ⦃H : Host⦄ (laws : BuildLaws J) {before : List PauseEvent} where
  rewritten-Keeps : (doc : J.Value) → Keeps before (rewritten doc)
  unfolding rewritten
  rewritten-Keeps doc = search keeps_rules depth 40 fits 4000

  pub fleet_status-Keeps : (n : ℕ) → Keeps before (fleet_status n)
  unfolding fleet_status
  fleet_status-Keeps zero = search keeps_rules
  fleet_status-Keeps (suc n) = Along-bind _ _ (search keeps_rules) λ r.
      Along-on_option _ _ _ (Along-bind _ _ (search keeps_rules) λ done. fleet_status-Keeps n)
        rewritten-Keeps

  note_state-Keeps :
      (old : FleetMemory) (ev : String) (s : String × ℕ) → Keeps before (note_state old ev s)
  unfolding note_state silent entry
  note_state-Keeps old ev s = search keeps_rules depth 40 fits 4000

  note_marks-Keeps : (ev : String) (doc : J.Value) → Keeps before (note_marks ev doc)
  unfolding note_marks silent entry
  note_marks-Keeps ev doc = search keeps_rules depth 40 fits 4000

  note_view-Keeps : (ev : String) (doc : J.Value) → Keeps before (note_view ev doc)
  unfolding note_view silent entry
  note_view-Keeps ev doc =
      search (keeps_rules, note_state-Keeps, note_marks-Keeps) depth 40 fits 4000

  pub note_fleet_view-Keeps : (doc : J.Value) → Keeps before (note_fleet_view doc)
  unfolding note_fleet_view
  note_fleet_view-Keeps doc = search (keeps_rules, note_view-Keeps) depth 40 fits 4000

  pub is_abort_signed-Keeps : Keeps before is_abort_signed
  unfolding is_abort_signed
  is_abort_signed-Keeps = search keeps_rules depth 40 fits 4000

  pub view_memory-Keeps : (status : Option J.Value) → Keeps before (view_memory status)
  unfolding view_memory
  view_memory-Keeps status = search (keeps_rules, note_fleet_view-Keeps) depth 40 fits 4000
