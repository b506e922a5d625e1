-- ===== src/Fleet/Gate/Unreachable.antt =====
-- src/machine.rs `fleet_gate`, after src/fleet.rs `quorum_unreachable_with`.
use pulse_cutover.Prelude.{
  ℕ, ◌≡◌, refl, inl, inr, String, Bool, true, false, Option, some, List, [], ◌∷◌, length, is_empty,
  find, contains, arith, nat_eq, Bool-cases, Option-cases, unwrap_or,
}
use pulse_cutover.Json.{Json}
use pulse_cutover.Config.{Coordination, RosterMember}
use pulse_cutover.Fleet.Reports.{exit_mark}
use pulse_cutover.Fleet.Members.{entry_of}
use pulse_cutover.Fleet.Marks.{FleetMemory}
use pulse_cutover.Fleet.Memory.{marked_names, remember_marks}
use pulse_cutover.Fleet.Memory.Marked.{producers-marked_names, contains-remember_marks, named_text}
use pulse_cutover.Fleet.Quorum.{Unreachable, quorum_unreachable_with}
use pulse_cutover.Fleet.Quorum.Safety.{quorum_unreachable-lt}
use pulse_cutover.Fleet.Gate.{Ours, is_marked, counts_entry, counts_member, agreeing, gate_open}

module _ ⦃J : Json⦄ where
  open J use {Value, index, as_str, as_array}

  find_holds : {A : Type 0} (xs : List A) (p : A → Bool) (x : A) → find xs p ≡ some x → p x ≡ true
  find_holds [] p x e = cc e
  find_holds (y ∷ ys) p x e = elim (Bool-cases (p y)) [
    | inl k ↦ let j : some y ≡ some x = rw k at e in ground (arith, k, j)
    | inr k ↦ find_holds ys p x (rw k at e)
  ]

  module _ (co : Coordination) (o : Ours) (seen : List String) (later : List Value)
      (m : RosterMember) where
    marked_not_counted : contains seen m.producer ≡ true → counts_member co o seen later m ≡ false
    unfolding counts_member counts_entry is_marked entry_of
    marked_not_counted h = elim (Option-cases (entry_of later m.producer)) [
      | inl n ↦ rw n refl
      | inr (p, l) ↦
          let name = named_text (as_str (index p "name")) m.producer (find_holds later _ p l) in
          rw (l, name) (ground (arith, h))
    ]

  bound : {A : Type 0} (xs : List A) → nat_eq (length xs) 0 ≡ false → is_empty xs ≡ false
  bound [] h = cc h
  bound (x ∷ xs) h = refl

  roster_bound :
      (status : Value) (co : Coordination) (me : Option (String × String)) (h : ℕ)
      (mem : FleetMemory) (proof : Unreachable)
      → quorum_unreachable_with status co me h mem ≡ some proof
      → is_empty co.roster ≡ false
  unfolding quorum_unreachable_with
  roster_bound status co me h mem proof e = elim (Option-cases co.event_id) [
    | inl n ↦ ground arith
    | inr (event, ev) ↦ bound co.roster (ground (arith, ev))
  ]

  -- Once a view of the fleet proves the quorum of an event out of reach, the gate opens on no later view,
  -- whatever the reports then say, as long as the exit marks that are remembered after the first view,
  -- whichever were known before it, are still remembered.
  pub quorum_unreachable-gate_open :
      (status : Value) (co : Coordination) (me : Option (String × String)) (h : ℕ)
      (mem : FleetMemory) (proof : Unreachable) (event : String) (o : Ours)
      (known seen : List String) (later : List Value)
      → quorum_unreachable_with status co me h mem ≡ some proof
      → co.event_id ≡ some event
      → ((n : String)
          → contains
              (remember_marks known
                (marked_names co.network event (unwrap_or (as_array (index status "networks")) [])))
              n
            ≡ true
          → contains seen n ≡ true)
      → gate_open co o seen later ≡ false
  unfolding gate_open agreeing
  quorum_unreachable-gate_open status co me h mem proof event o known seen later e bound_to
        remembered =
      let few =
        quorum_unreachable-lt status co me h mem proof (counts_member co o seen later) e
          λ who ev m mine same d.
            let exits : (exit_mark d.entry event).exited ≡ true = cc (d.exited, same, bound_to) in
            marked_not_counted co o seen later m (
              remembered m.producer (
                contains-remember_marks known _ m.producer (
                  producers-marked_names co.network event m.producer status d.entry d.listed
                    exits))) in
      rw (roster_bound status co me h mem proof e) (ground (arith, few))
