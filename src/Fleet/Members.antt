-- ===== src/Fleet/Members.antt =====
-- src/fleet.rs, `members`: every roster member as the relay shows it for one event. The text that the
-- code formats into `max_past` is a value with the parts that the text names.
use pulse_cutover.Prelude.{
  ℕ, ◌-◌, String, Bool, Option, none, some, List, [], ◌∷◌, map, not, ◌&&◌, ◌||◌, ◌==◌, length,
  if◌then◌else◌, unwrap_or, map_or, is_empty, is_some_and, is_none_or, is_none, then_some, any,
  find, leb, and_then, map_option, or_else, filter, filter_map, find_map, min_by_key, first,
  u64_mod, mul_u64, max, eq_ignore_ascii_case,
}
use pulse_cutover.Json.{Json}
use pulse_cutover.Config.{Coordination, RosterMember}
use pulse_cutover.Fleet.Reports.{
  Beacon, beacons, exit_mark, may_have_verified, producers, past_create, for_event, is_true,
  is_text,
}

-- Why a member counts as past chain creation: one constructor for each text of the code.
pub data PastCreation : Type 0 where
  high_water : String → PastCreation
  foreign_record : String → ℕ → List (Option ℕ) → PastCreation
  evidence_log : String → ℕ → Option ℕ → ℕ → PastCreation
  log_overflow : PastCreation
  foreign_report : String → PastCreation
  beacon_report : String → PastCreation

module _ ⦃J : Json⦄ where
  open J use {Value, index, get, as_str, as_u64, as_bool, as_array, is_null, is_object}

  pub record MemberView : Type 0 where
    pub producer : String
    pub instance_id : Option String
    -- The freshest usable report for this event.
    pub report : Option Value
    -- The freshest unconflicted report for this event, however old.
    pub last : Option Value
    pub missing : Bool
    pub stale : Bool
    pub conflict : Bool
    pub max_past : Option PastCreation
    pub verified_mark : Bool

  unfoldable pub wanted : List Value → Coordination → List RosterMember
  unfolding beacons
  wanted prods co =
      if is_empty co.roster
      then filter_map (filter prods (λ p. any (beacons p) (λ b. for_event co.event_id b.report)))
          (λ p.
            map_option (λ n. record { producer = n; instance_id = none }) (as_str (index p "name")))
      else co.roster

  unfoldable pub entry_of : List Value → String → Option Value
  entry_of prods producer = find prods (λ p. is_text (as_str (index p "name")) producer)

  -- The relay's mark for this event, in either of its two shapes.
  unfoldable pub event_mark : Option Value → Option String → Option Value
  event_mark entry none = none
  event_mark entry (some e) =
      and_then (map_option (λ p. index p "event_max") entry)
        λ m. elim (as_str (index m "event_id")) [ some id ↦ then_some (id == e) m | none ↦ get m e ]

  -- A list of observations, or one object read as such.
  abbrev observations : Value → List Value
  observations v = elim (as_array v) [ some a ↦ a | none ↦ if is_object v then v ∷ [] else [] ]

  abbrev state_or : Value → String → String
  state_or v d = unwrap_or (as_str (index v "state")) d

  foreign_past : Value → Option PastCreation
  foreign_past m =
      let list = observations (index m "foreign_past") in
      if is_empty list && not (is_true (as_bool (index m "foreign_overflow")))
      then none
      else some (
          foreign_record
            (unwrap_or (and_then (first list) (λ o. as_str (index o "state"))) "past creation")
            (max (length list) 1) (map (λ o. as_u64 (index o "h")) list))

  unfoldable pub mark_past : Option Value → Option PastCreation
  unfolding foreign_past
  mark_past none = none
  mark_past (some m) =
      if is_true (as_bool (index m "past_create"))
      then some (high_water (state_or m "past creation"))
      else foreign_past m

  -- The observations of the creation-evidence log that count for the event.
  unfoldable pub log_evidence : Value → Option String → List Value
  log_evidence log event = elim (as_array (index log "blocking")) [
    | some b ↦ b
    | none ↦
        map_or []
          (λ a. filter a (λ o.
            is_null (index o "event_id")
            || is_none (as_u64 (index o "h"))
            || is_none_or event (λ e. is_text (as_str (index o "event_id")) e)))
          (as_array (index log "obs"))
  ]

  unfoldable pub log_past : Option Value → Option String → Option PastCreation
  log_past none event = none
  log_past (some p) event =
      let log = index p "creation_evidence" in
      let obs = log_evidence log event in
      elim (first obs) [
        | some o ↦ some (
            evidence_log (state_or o "past creation") (unwrap_or (as_u64 (index o "id")) 0)
              (as_u64 (index o "h")) (length obs - 1))
        | none ↦ then_some (is_true (as_bool (index log "overflow"))) log_overflow
      ]

  -- The producer's beacons for the event, and for the instance that the roster pins.
  unfoldable pub member_beacons : Option Value → Option String → Option String → List Beacon
  unfolding beacons
  member_beacons entry event instance_id =
      filter (filter (map_or [] beacons entry) (λ b. for_event event b.report)) λ b.
        is_none_or instance_id
          λ id. is_some_and (as_str (index b.report "instance_id")) (λ x. eq_ignore_ascii_case x id)

  unfoldable pub report_past : Beacon → Option PastCreation
  report_past b = elim (as_str (index b.report "foreign_past_create")) [
    | some st ↦ some (foreign_report st)
    | none ↦
        then_some (past_create b.report)
          (beacon_report (state_or (index b.report "ceremony") "past creation"))
  ]

  -- Everything that can show a member past creation, in the code's order.
  unfoldable pub past_of : Option Value → Option String → List Beacon → Option PastCreation
  unfolding event_mark mark_past log_past report_past
  past_of entry event bs =
      or_else (or_else (mark_past (event_mark entry event)) (log_past entry event))
        (find_map bs report_past)

  abbrev pub age_or_max : Beacon → ℕ
  age_or_max b = unwrap_or b.age_ms (u64_mod - 1)

  unfoldable pub usable : List Beacon → List Beacon
  usable bs = filter bs (λ b. not b.conflict)

  unfoldable pub freshest : ℕ → List Beacon → Option Beacon
  unfolding usable
  freshest max_age bs =
      min_by_key (filter (usable bs) (λ b. is_some_and b.age_ms (λ a. leb a max_age))) age_or_max

  unfoldable pub member_view : List Value → Coordination → RosterMember → MemberView
  unfolding entry_of member_beacons past_of freshest
  member_view prods co m =
      let event = co.event_id in
      let entry = entry_of prods m.producer in
      let bs = member_beacons entry event m.instance_id in
      let fresh = freshest (mul_u64 co.report_max_age_secs 1000) bs in
      record {
        producer = m.producer;
        instance_id = m.instance_id;
        report = map_option (λ b. b.report) fresh;
        last = map_option (λ b. b.report) (min_by_key (usable bs) age_or_max);
        missing = is_empty bs;
        stale = not (is_empty bs) && not (is_empty (usable bs)) && is_none fresh;
        conflict = not (is_empty bs) && is_empty (usable bs);
        max_past = past_of entry event bs;
        verified_mark =
            is_some_and entry (λ p. is_some_and event (λ e. may_have_verified (exit_mark p e)));
      }

  unfoldable pub members : Value → Coordination → List MemberView
  unfolding wanted member_view
  members status co =
      let prods = producers status co.network in map (member_view prods co) (wanted prods co)
