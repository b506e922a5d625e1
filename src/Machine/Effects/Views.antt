-- ===== src/Machine/Effects/Views.antt =====
-- src/machine.rs, `fleet_status` and `note_fleet_view`: what they leave alone.
use pulse_cutover.Prelude.{ℕ, zero, suc, String, Bool, Option}
use pulse_cutover.Json.{Json}
use pulse_cutover.Fleet.Marks.{FleetMemory}
use pulse_cutover.Machine.Host.{Host, Effect}
use pulse_cutover.Machine.Exec.Along.{Same-Preorder, Along-bind, Along-on_option}
use pulse_cutover.Machine.View.{
  rewritten, fleet_status, note_state, note_marks, note_view, note_fleet_view,
}
use pulse_cutover.Machine.Guard.{is_abort_signed, view_memory}
use pulse_cutover.Machine.Effects.Rules.{Ignores, Spares, spare_rules}

module _ ⦃J : Json⦄ ⦃H : Host⦄ {kind : Effect → Bool} (ignores : Ignores kind) where
  rewritten-Spares : (doc : J.Value) → Spares kind (rewritten doc)
  unfolding rewritten
  rewritten-Spares doc = search spare_rules depth 40 fits 4000

  pub fleet_status-Spares : (n : ℕ) → Spares kind (fleet_status n)
  unfolding fleet_status
  fleet_status-Spares zero = search spare_rules
  fleet_status-Spares (suc n) = Along-bind _ _ (search spare_rules) λ r.
      Along-on_option _ _ _ (Along-bind _ _ (search spare_rules) λ done. fleet_status-Spares n)
        rewritten-Spares

  note_state-Spares :
      (old : FleetMemory) (ev : String) (s : String × ℕ) → Spares kind (note_state old ev s)
  unfolding note_state
  note_state-Spares old ev s = search spare_rules depth 40 fits 4000

  note_marks-Spares : (ev : String) (doc : J.Value) → Spares kind (note_marks ev doc)
  unfolding note_marks
  note_marks-Spares ev doc = search spare_rules depth 40 fits 4000

  note_view-Spares : (ev : String) (doc : J.Value) → Spares kind (note_view ev doc)
  unfolding note_view
  note_view-Spares ev doc =
      search (spare_rules, note_state-Spares, note_marks-Spares) depth 40 fits 4000

  pub note_fleet_view-Spares : (doc : J.Value) → Spares kind (note_fleet_view doc)
  unfolding note_fleet_view
  note_fleet_view-Spares doc = search (spare_rules, note_view-Spares) depth 40 fits 4000

  pub is_abort_signed-Spares : Spares kind is_abort_signed
  unfolding is_abort_signed
  is_abort_signed-Spares = search spare_rules depth 40 fits 4000

  pub view_memory-Spares : (status : Option J.Value) → Spares kind (view_memory status)
  unfolding view_memory
  view_memory-Spares status = search (spare_rules, note_fleet_view-Spares) depth 40 fits 4000
