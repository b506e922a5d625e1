-- ===== src/Fleet/Marks.antt =====
-- src/fleet.rs: the agent's memory of the fleet, whether the relay's marks can be trusted, and the
-- peers that the relay shows VERIFIED or later. The set of peers is a list of names.
pub mod Memory
use pulse_cutover.Prelude.{
  ℕ, String, Bool, true, false, Option, none, some, List, [], ◌∷◌, not, ◌&&◌, ◌||◌, ◌==◌,
  if◌then◌else◌, is_empty, is_some_and, any, find, ltb, contains, and_then, map_option, filter,
  filter_map, map_or,
}
use pulse_cutover.Json.{Json}
use pulse_cutover.Config.{Coordination}
use pulse_cutover.Fleet.Reports.{
  beacons, exit_mark, may_have_verified, producers, past_create, is_true, is_false, is_text,
}
use pulse_cutover.Fleet.Result.{
  Result, ok, err, Refusal, ◌>>=◌, ◌>>◌, refuse_if, marks_regressed, marks_unserved,
  marks_incomplete, marks_unidentified, marks_went_back,
}

pub record FleetMemory : Type 0 where
  -- Peers that this agent ever saw VERIFIED or later.
  pub verified_peers : List String
  -- The relay's marks state as first seen: (state id, highest generation since).
  pub relay_state : Option (String × ℕ)
  pub relay_regressed : Bool

abbrev pub default_memory : FleetMemory
default_memory = record { verified_peers = []; relay_state = none; relay_regressed = false }

-- The states that a journal reaches only after a fleet gate could have counted it.
abbrev pub countable_states : List String
countable_states = "VERIFIED" ∷ "IGNITED" ∷ "FLIPPED" ∷ "LIVE" ∷ "HALTED" ∷ []

-- `jid != id || g < jg`: the marks state went backwards.
unfoldable pub went_back : Option (String × ℕ) → String → ℕ → Result (Unit {0})
went_back none id g = ok tt
went_back (some (jid, jg)) id g =
    refuse_if (not (jid == id) || ltb g jg) (marks_went_back jid jg id g)

module _ ⦃J : Json⦄ where
  open J use {Value, index, as_str, as_u64, as_bool, as_array, is_null}

  unfoldable pub marks_state : Value → Coordination → Option Value
  marks_state status co = and_then co.event_id λ ev.
      and_then (as_array (index status "networks")) λ nets.
        and_then (find nets (λ n. is_text (as_str (index n "id")) co.network)) λ n.
          let m = index n "marks_state" in
          if is_text (as_str (index m "event_id")) ev then some m else none

  unfoldable pub marks_identified : Option String → Option ℕ → FleetMemory → Result (Unit {0})
  marks_identified none g mem = err marks_unidentified
  marks_identified (some id) none mem = err marks_unidentified
  marks_identified (some id) (some g) mem = went_back mem.relay_state id g

  unfoldable pub trusted_state : Option Value → FleetMemory → Result (Unit {0})
  trusted_state none mem = err marks_unserved
  trusted_state (some m) mem = do
    refuse_if (not (is_true (as_bool (index m "complete")))) marks_incomplete
    marks_identified (as_str (index m "state_id")) (as_u64 (index m "generation")) mem

  -- The relay's marks can prove that someone is out.
  unfoldable pub marks_trusted : Value → Coordination → FleetMemory → Result (Unit {0})
  marks_trusted status co mem = do
    refuse_if mem.relay_regressed marks_regressed
    trusted_state (marks_state status co) mem

  unfoldable pub generation_kept : Option String → Option ℕ → FleetMemory → Result (Unit {0})
  generation_kept none g mem = ok tt
  generation_kept (some id) none mem = ok tt
  generation_kept (some id) (some g) mem = went_back mem.relay_state id g

  unfoldable pub kept_state : Option Value → FleetMemory → Result (Unit {0})
  kept_state none mem = ok tt
  kept_state (some m) mem = do
    refuse_if (is_false (as_bool (index m "complete"))) marks_incomplete
    generation_kept (as_str (index m "state_id")) (as_u64 (index m "generation")) mem

  -- The relay does not say that the marks were lost, and the agent did not see them go backwards.
  unfoldable pub marks_not_lost : Value → Coordination → FleetMemory → Result (Unit {0})
  marks_not_lost status co mem = do
    refuse_if mem.relay_regressed marks_regressed
    kept_state (marks_state status co) mem

  abbrev pub is_countable : Value → Bool
  is_countable v = is_some_and (as_str (index v "state")) (contains countable_states)

  -- One report shows its member VERIFIED or later for the event.
  unfoldable pub seen_by_report : String → Value → Bool
  seen_by_report event r =
      let c = index r "ceremony" in
      is_text (as_str (index (index r "coord") "event_id")) event
      && (is_countable c
          || past_create r
          || not (is_null (index (index c "evidence") "snapshot_sha256"))
          || not (is_null (index (index c "evidence") "fingerprints_digest"))
          || is_some_and (as_array (index c "transitions")) (λ t. any t is_countable))

  -- The name of a producer entry that counts as a verified peer.
  unfoldable pub verified_peer :
      Coordination → Option (String × String) → String → Value → Option String
  unfolding beacons seen_by_report
  verified_peer co me event p = and_then (as_str (index p "name")) λ name.
      if is_some_and me (λ m. m.0 == name)
        || (not (is_empty co.roster) && not (any co.roster (λ m. m.producer == name)))
      then none
      else if any (beacons p) (λ b. seen_by_report event b.report)
          || may_have_verified (exit_mark p event)
      then some name
      else none

  unfoldable pub peers_seen_verified : Value → Coordination → Option (String × String) → List String
  unfolding verified_peer
  peers_seen_verified status co me =
      map_or [] (λ event. filter_map (producers status co.network) (verified_peer co me event))
        co.event_id
