-- ===== src/Fleet/Gate.antt =====
-- src/machine.rs `fleet_gate`, and src/beacon.rs `has_failing_health`: whether the reports in one status
-- document make up the quorum that the target chain waits for.
pub mod Agreement
pub mod Exclusion
pub mod Unreachable
use pulse_cutover.Prelude.{
  ℕ, String, Bool, true, false, Option, none, some, List, [], ◌∷◌, map, not, ◌&&◌, ◌||◌, length,
  if◌then◌else◌, unwrap_or, map_or, is_empty, is_some_and, is_none_or, any, filter, filter_map,
  contains, leb, mul_u64, then_some,
}
use Prim.Native.String.{◌++◌}
use pulse_cutover.Prelude.Decimal.{show_u64, join}
use pulse_cutover.Json.{Json}
use pulse_cutover.Config.{Coordination, RosterMember}
use pulse_cutover.Fleet.Reports.{Beacon, beacons, exit_mark, for_event, is_true, is_false, is_text}
use pulse_cutover.Fleet.Members.{entry_of}
use pulse_cutover.Fleet.Resume.{quorum_of}

-- Checks of an agent's preparation: they do not make a report unhealthy.
abbrev pub setup_checks : List String
setup_checks =
    "hook_on_freeze" ∷ "hook_post_ignite" ∷ "hook_on_live" ∷ "hook_on_abort" ∷ "validator_running"
    ∷ "metal_synced" ∷ "metal_reachable" ∷ "producer_api_private" ∷ "rehearsal_overrides" ∷ "shadow"
    ∷ "admission_lock_probe" ∷ []

abbrev pub verified_states : List String
verified_states = "VERIFIED" ∷ "IGNITED" ∷ "FLIPPED" ∷ "LIVE" ∷ []

abbrev pub joined : String → String → List String → Option String
joined prefix sep xs = if is_empty xs then none else some (prefix ++ join sep xs)

module _ ⦃J : Json⦄ where
  open J use {Value, index, as_str, as_u64, as_bool, as_array, is_null, same, text, object}

  abbrev pub fails_health : Value → Bool
  fails_health c =
      is_false (as_bool (index c "ok"))
      && not (is_some_and (as_str (index c "name")) (contains setup_checks))

  unfoldable pub has_failing_health : Value → Bool
  has_failing_health r = is_some_and (as_array (index r "checks")) (λ cs. any cs fails_health)

  -- What this node compares the reports with: its own evidence, and whether the target's backend has a
  -- protocol schedule.
  pub record Ours : Type 0 where
    pub evidence : Value
    pub upstream : Bool

  -- Absent evidence never agrees.
  unfoldable pub same_evidence : Value → Value → String → Bool
  same_evidence ours c k =
      let theirs = index (index c "evidence") k in
      not (is_null (index ours k)) && (not (is_null theirs) && same theirs (index ours k))

  unfoldable pub agrees : Ours → Option String → Value → Bool
  agrees o event r =
      let c = index r "ceremony" in
      is_some_and (as_str (index c "state")) (contains verified_states)
      && (not (is_true (as_bool (index c "aborting")))
          && (not (is_true (as_bool (index c "rollback_pending")))
              && (same_evidence o.evidence c "snapshot_sha256"
                  && (same_evidence o.evidence c "fingerprints_digest"
                      && ((if o.upstream
                            then same_evidence o.evidence c "protocol_schedule_hash"
                            else true)
                          && for_event event r)))))

  unfoldable pub is_fresh : ℕ → Beacon → Bool
  is_fresh max_age b = is_some_and b.age_ms (λ a. leb a max_age)

  -- Fresh, of one machine, and healthy.
  abbrev pub is_usable : Coordination → Beacon → Bool
  is_usable co b =
      not b.conflict
      && (is_fresh (mul_u64 co.report_max_age_secs 1000) b && not (has_failing_health b.report))

  -- The reports of a producer that may count.
  unfoldable pub reports_of : Coordination → Value → List Beacon
  reports_of co p = filter (beacons p) (is_usable co)

  -- Marked by the relay, or in the marks that this journal has seen.
  unfoldable pub is_marked : Option String → List String → Value → Bool
  is_marked event seen p =
      is_some_and event (λ e. (exit_mark p e).exited)
      || is_some_and (as_str (index p "name")) (contains seen)

  unfoldable pub counts_entry : Coordination → Ours → List String → RosterMember → Value → Bool
  counts_entry co o seen m p =
      not (is_marked co.event_id seen p)
      && any (reports_of co p) λ b.
        is_none_or m.instance_id (λ id. is_text (as_str (index b.report "instance_id")) id)
        && agrees o co.event_id b.report

  -- One member of the event's roster.
  unfoldable pub counts_member :
      Coordination → Ours → List String → List Value → RosterMember → Bool
  counts_member co o seen prods m =
      is_some_and (entry_of prods m.producer) (counts_entry co o seen m)

  -- A producer, where no roster is bound.
  unfoldable pub counts_any : Coordination → Ours → List String → Value → Bool
  counts_any co o seen p =
      not (is_marked co.event_id seen p) && any (reports_of co p) λ b. agrees o co.event_id b.report

  unfoldable pub agreeing : Coordination → Ours → List String → List Value → ℕ
  agreeing co o seen prods =
      if is_empty co.roster
      then length (filter prods (counts_any co o seen))
      else length (filter co.roster (counts_member co o seen prods))

  -- `agreeing >= quorum`
  unfoldable pub gate_open : Coordination → Ours → List String → List Value → Bool
  gate_open co o seen prods = leb (quorum_of co) (agreeing co o seen prods)

  abbrev pub failing_names : Value → List String
  failing_names r =
      map (λ c. unwrap_or (as_str (index c "name")) "?")
        (filter (unwrap_or (as_array (index r "checks")) []) fails_health)

  -- A key whose evidence differs from ours, as the operator reads it.
  abbrev pub differing : Value → Value → String → Option String
  differing ours c k =
      let theirs = index (index c "evidence") k in
      if is_null (index ours k) || same theirs (index ours k)
      then none
      else some (
          if is_null theirs then k ++ " missing (the peer's agent may predate this release)" else k)

  abbrev pub differences : Ours → Option String → Value → List String
  differences o event r =
      let c = index r "ceremony" in
      if for_event event r && is_some_and (as_str (index c "state")) (contains verified_states)
      then filter_map ("snapshot_sha256" ∷ "fingerprints_digest" ∷ "protocol_schedule_hash" ∷ [])
          (differing o.evidence c)
      else []

  -- Every reason why a report does not count.
  unfoldable pub exclusion : Coordination → Ours → Beacon → Option String
  exclusion co o b =
      let reasons =
        filter_map
          (then_some b.conflict "identity conflict (one token, two machines)"
            ∷ then_some (not (is_fresh (mul_u64 co.report_max_age_secs 1000) b))
                ("stale report (older than " ++ show_u64 co.report_max_age_secs ++ " s)")
            ∷ joined "failing health check(s): " "; " (failing_names b.report)
            ∷ joined "evidence differs from ours: " ", " (differences o co.event_id b.report)
            ∷ [])
          (λ r. r) in
      if is_empty reasons then none else some (join "; " reasons)

  abbrev marked_why : String
  marked_why =
      "the relay durably marked this member as having exited the event without verifying (rc.31): "
      ++ "never counted again for this event"

  abbrev excluded_report : Coordination → Ours → Value → Beacon → Option Value
  excluded_report co o p b = elim (exclusion co o b) [
    | none ↦ none
    | some why ↦ some (
        object (
          ("producer", index p "name")
          ∷ ("instance_id", index b.report "instance_id")
          ∷ ("why", text why)
          ∷ []))
  ]

  -- The records of what does not count, for the producers of the roster.
  unfoldable pub excluded_of : Coordination → Ours → List String → Value → List Value
  excluded_of co o seen p =
      if not (is_empty co.roster)
        && not (any co.roster (λ m. is_text (as_str (index p "name")) m.producer))
      then []
      else let reports = filter_map (beacons p) (excluded_report co o p) in
        if is_marked co.event_id seen p
        then object (("producer", index p "name") ∷ ("why", text marked_why) ∷ []) ∷ reports
        else reports
