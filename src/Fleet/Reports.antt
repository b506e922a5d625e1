-- ===== src/Fleet/Reports.antt =====
-- src/fleet.rs: what the relay's status document says of one producer.
use pulse_cutover.Prelude.{
  ℕ, String, Bool, false, Option, none, some, List, [], ◌∷◌, map, not, ◌&&◌, ◌||◌, ◌==◌,
  if◌then◌else◌, unwrap_or, map_or, is_empty, is_some, is_some_and, is_none_or, then_some, any,
  find, leb, ltb, nat_eq, contains, and_then,
}
use pulse_cutover.Json.{Json}
use pulse_cutover.Config.{Coordination}

-- `x.as_bool() == Some(true)`, and so for the other values that the code compares with.
abbrev pub is_true : Option Bool → Bool
is_true none = false
is_true (some b) = b

abbrev pub is_false : Option Bool → Bool
is_false none = false
is_false (some b) = not b

abbrev pub is_text : Option String → String → Bool
is_text none t = false
is_text (some s) t = s == t

abbrev pub is_num : Option ℕ → ℕ → Bool
is_num none t = false
is_num (some n) t = nat_eq n t

-- The relay's mark facts for one producer and one event.
pub record ExitMark : Type 0 where
  pub exited : Bool
  pub reentered : Bool
  pub verified_seen : Option Bool
  pub rank : Option ℕ
  pub exit_state : Option String

abbrev default_mark : ExitMark
default_mark = record {
  exited = false;
  reentered = false;
  verified_seen = none;
  rank = none;
  exit_state = none;
}

unfoldable pub may_have_verified : ExitMark → Bool
may_have_verified m = elim m.verified_seen [ some v ↦ v | none ↦ is_some_and m.rank (λ r. leb 4 r) ]

unfoldable pub never_verified : ExitMark → Bool
never_verified m =
    is_false m.verified_seen
    && is_some_and m.rank (λ r. ltb r 4 || (nat_eq r 4 && is_text m.exit_state "STRANDED"))

module _ ⦃J : Json⦄ where
  open J use {Value, index, get, as_str, as_u64, as_bool, as_array, is_null, is_object}

  -- One beacon that the relay lists for a producer: (report, age_ms, conflict).
  pub record Beacon : Type 0 where
    pub report : Value
    pub age_ms : Option ℕ
    pub conflict : Bool

  abbrev pub beacon_of : Value → Beacon
  beacon_of b = record {
    report = index b "report";
    age_ms = as_u64 (index b "age_ms");
    conflict = unwrap_or (as_bool (index b "conflict")) false;
  }

  unfoldable pub beacons : Value → List Beacon
  beacons p =
      let v = map_or [] (map beacon_of) (as_array (index p "beacons")) in
      if is_empty v && not (is_null (index p "report")) then beacon_of p ∷ [] else v

  abbrev mark_of : Value → ExitMark
  mark_of mark = record {
    exited = is_object (index mark "exited");
    reentered = is_true (as_bool (index mark "reentered"));
    verified_seen = as_bool (index mark "verified_seen");
    rank = as_u64 (index mark "rank");
    exit_state = as_str (index (index mark "exited") "state");
  }

  unfoldable pub exit_mark : Value → String → ExitMark
  exit_mark p event =
      let m = index p "event_max" in
      let mark : Option Value = elim (as_str (index m "event_id")) [
        | some id ↦ then_some (id == event) m
        | none ↦ get m event
      ] in
      map_or default_mark mark_of mark

  -- The network's producer list from a `/api/status` document.
  unfoldable pub producers : Value → String → List Value
  producers status network =
      let net =
        and_then (as_array (index status "networks"))
          (λ nets. find nets (λ n. is_text (as_str (index n "id")) network)) in
      unwrap_or (and_then net (λ n. as_array (index n "producers"))) []

  unfoldable pub own_exit_marked : Value → Coordination → String → Bool
  unfolding producers exit_mark
  own_exit_marked status co producer = elim co.event_id [
    | none ↦ false
    | some event ↦
        any (producers status co.network)
          (λ p. is_text (as_str (index p "name")) producer && (exit_mark p event).exited)
  ]

  -- A report past the point where resuming the old chain is safe.
  unfoldable pub past_create : Value → Bool
  past_create report =
      is_some (as_str (index report "foreign_past_create"))
      || (let c = index report "ceremony" in
          is_some_and (as_str (index c "state"))
            (λ s. contains ("IGNITED" ∷ "FLIPPED" ∷ "LIVE" ∷ "HALTED" ∷ []) s)
          || is_true (as_bool (index c "create_started"))
          || is_true (as_bool (index c "ignition_started"))
          || is_true (as_bool (index c "joined")))

  -- A report is for the event, or no event is configured.
  abbrev pub for_event : Option String → Value → Bool
  for_event event r =
      is_none_or event (λ e. is_text (as_str (index (index r "coord") "event_id")) e)
