-- ===== src/Fleet/Memory.antt =====
-- src/machine.rs `journaled_fleet_memory`, `merged_fleet_memory`, `journaled_exit_marks`: what a journal and
-- a view of the relay add to the memory of the fleet. A set of names is a list.
pub mod Grows
pub mod Marked
use pulse_cutover.Prelude.{
  ℕ, String, Bool, true, false, Option, none, some, List, [], ◌∷◌, ◌++◌, not, ◌&&◌, ◌||◌, ◌==◌,
  if◌then◌else◌, unwrap_or, is_empty, is_some, filter, filter_map, contains, ltb, and_then, map_or,
}
use pulse_cutover.Json.{Json}
use pulse_cutover.Config.{Coordination}
use pulse_cutover.Fleet.Reports.{exit_mark, is_true, is_false, is_text}
use pulse_cutover.Fleet.Marks.{FleetMemory, default_memory, marks_state, peers_seen_verified}

-- The names that are not known, each once.
abbrev pub unknown_names : List String → List String → List String
unknown_names known [] = []
unknown_names known (n ∷ ns) =
    let rest = unknown_names known ns in
    if contains known n || contains rest n then rest else n ∷ rest

abbrev pub union : List String → List String → List String
union known ns = known ++ unknown_names known ns

-- One journaled marks state: the first id stays, its generation grows, another id is a regression.
unfoldable pub fold_state : String → ℕ → FleetMemory → FleetMemory
fold_state id g mem = elim mem.relay_state [
  | none ↦ record mem { relay_state = some (id, g) }
  | some (jid, jg) ↦
      if not (jid == id)
      then record mem { relay_regressed = true }
      else if ltb jg g
      then record mem { relay_state = some (id, g) }
      else mem
]

-- A line that states both an id and a generation.
abbrev pub fold_marks : Option String → Option ℕ → FleetMemory → FleetMemory
fold_marks none g mem = mem
fold_marks (some id) none mem = mem
fold_marks (some id) (some g) mem = fold_state id g mem

-- Why the relay's marks are no longer trusted.
pub data Regression : Type 0 where
  incomplete_marks : Regression
  state_went_back : String → ℕ → String → ℕ → Regression

abbrev regress : FleetMemory → Regression → FleetMemory × Option Regression
regress mem why = (record mem { relay_regressed = true }, some why)

unfoldable pub merge_state : String → ℕ → FleetMemory → FleetMemory × Option Regression
merge_state id g mem = elim mem.relay_state [
  | none ↦ (record mem { relay_state = some (id, g) }, none)
  | some (jid, jg) ↦
      if not (jid == id) || ltb g jg
      then regress mem (state_went_back jid jg id g)
      else (record mem { relay_state = some (id, g) }, none)
]

abbrev pub merge_identified :
    Option String → Option ℕ → FleetMemory → FleetMemory × Option Regression
merge_identified none g mem = (mem, none)
merge_identified (some id) none mem = (mem, none)
merge_identified (some id) (some g) mem = merge_state id g mem

abbrev pub fresh_marks : List String → List String → List String
fresh_marks known marks = filter marks (λ n. not (contains known n))

-- The exit marks that are remembered after a view of the relay.
unfoldable pub remember_marks : List String → List String → List String
remember_marks known marks = known ++ fresh_marks known marks

module _ ⦃J : Json⦄ where
  open J use {Value, index, as_str, as_u64, as_bool, as_array}

  abbrev pub texts_of : Value → List String
  texts_of v = map_or [] (λ vs. filter_map vs as_str) (as_array v)

  -- The data of one journal line, if it is of the event.
  unfoldable pub fold_line : String → FleetMemory → Value → FleetMemory
  fold_line event mem d =
      let named = record mem {
        verified_peers = union mem.verified_peers (texts_of (index d "peers_seen_verified"));
      } in
      let state = index d "relay_marks_state" in
      let stated =
        fold_marks (as_str (index state "state_id")) (as_u64 (index state "generation")) named in
      if not (is_text (as_str (index d "event_id")) event)
      then mem
      else if is_true (as_bool (index d "relay_marks_regressed"))
      then record stated { relay_regressed = true }
      else stated

  unfoldable pub journaled_from : String → FleetMemory → List Value → FleetMemory
  journaled_from event mem [] = mem
  journaled_from event mem (d ∷ ds) = journaled_from event (fold_line event mem d) ds

  -- The memory that the journal's lines hold, given the data of each.
  unfoldable pub journaled_fleet_memory : List Value → String → FleetMemory
  journaled_fleet_memory ds event = journaled_from event default_memory ds

  unfoldable pub merge_marks : Option Value → FleetMemory → FleetMemory × Option Regression
  merge_marks none mem = (mem, none)
  merge_marks (some ms) mem =
      if is_false (as_bool (index ms "complete"))
      then regress mem incomplete_marks
      else merge_identified (as_str (index ms "state_id")) (as_u64 (index ms "generation")) mem

  -- What a fresh view of the relay adds.
  unfoldable pub merged_fleet_memory :
      Coordination
      → Option (String × String)
      → Value
      → FleetMemory
      → FleetMemory × Option Regression
  merged_fleet_memory co me doc mem =
      merge_marks (marks_state doc co)
        (record mem { verified_peers = union mem.verified_peers (peers_seen_verified doc co me) })

  unfoldable pub journaled_exit_marks : List Value → String → List String
  journaled_exit_marks [] event = []
  journaled_exit_marks (d ∷ ds) event =
      let rest = journaled_exit_marks ds event in
      if is_text (as_str (index d "event_id")) event
      then texts_of (index d "exit_marks_seen") ++ rest
      else rest

  unfoldable pub exited_names : String → List Value → List String
  exited_names event prods =
      filter_map (filter prods (λ p. (exit_mark p event).exited)) (λ p. as_str (index p "name"))

  -- The producers that the relay marks as having exited the event, in every network of this name.
  unfoldable pub marked_names : String → String → List Value → List String
  marked_names network event [] = []
  marked_names network event (n ∷ nets) =
      let rest = marked_names network event nets in
      if is_text (as_str (index n "id")) network
      then exited_names event (unwrap_or (as_array (index n "producers")) []) ++ rest
      else rest
