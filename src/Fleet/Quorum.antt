-- ===== src/Fleet/Quorum.antt =====
-- src/fleet.rs, `quorum_unreachable_with`: a proof that the event's quorum can no longer be reached.
pub mod Safety
pub mod Reports
use pulse_cutover.Prelude.{
  ℕ, ◌-◌, String, Bool, true, false, Option, none, some, List, [], ◌∷◌, not, ◌&&◌, ◌||◌, ◌==◌,
  length, if◌then◌else◌, is_empty, is_some, is_some_and, is_none_or, any, find, leb, ltb, nat_eq,
  contains, and_then, then_some, filter, filter_map, first, min, mul_u64, eq_ignore_ascii_case,
  map_option, unwrap_or,
}
use pulse_cutover.Json.{Json}
use pulse_cutover.Config.{Coordination, RosterMember}
use pulse_cutover.Version.{agent_honours_exit_marks}
use pulse_cutover.Fleet.Reports.{
  Beacon, ExitMark, beacons, exit_mark, never_verified, producers, past_create, is_true, is_text,
  is_num,
}
use pulse_cutover.Fleet.Members.{MemberView, members, entry_of}
use pulse_cutover.Fleet.Marks.{
  FleetMemory, default_memory, marks_trusted, peers_seen_verified, is_countable,
}
use pulse_cutover.Fleet.Result.{is_err}
use pulse_cutover.Fleet.Resume.{quorum_of, own_report_visible, others, has_left}

-- Why a report does not prove its member out: one constructor for each text of the code.
pub data NotOut : Type 0 where
  other_event other_h past_creation no_transitions reached_verified carries_evidence
        abort_in_progress :
      NotOut
  in_state : String → NotOut

-- A chain of `if test { return Some(reason) }`.
infixr 4 ◌unless◌
abbrev pub ◌unless◌ : Bool × NotOut → Option NotOut → Option NotOut
(test, reason) unless rest = if test then some reason else rest

module _ ⦃J : Json⦄ where
  open J use {Value, index, as_str, as_u64, as_bool, as_array, is_null}

  -- What a transition list says against the member.
  abbrev transitions_problem : Option (List Value) → Option NotOut → Option NotOut
  transitions_problem none rest = some no_transitions
  transitions_problem (some tr) rest = if any tr is_countable then some reached_verified else rest

  -- `none`: the report proves its member durably out of the event.
  unfoldable pub not_out : Value → String → ℕ → Option NotOut
  not_out r event h =
      let c = index r "ceremony" in
      let st = unwrap_or (as_str (index c "state")) "none" in
      (not (is_text (as_str (index (index r "coord") "event_id")) event), other_event)
      unless (not (is_num (as_u64 (index (index c "evidence") "h")) h), other_h)
      unless (not (has_left st), in_state st)
      unless (past_create r || is_some (as_str (index r "foreign_past_create")), past_creation)
      unless transitions_problem (as_array (index c "transitions")) (
          (
            not (is_null (index (index c "evidence") "snapshot_sha256"))
                || not (is_null (index (index c "evidence") "fingerprints_digest")),
            carries_evidence,
          )
          unless (
            is_true (as_bool (index c "aborting"))
                || is_true (as_bool (index c "rollback_pending")),
            abort_in_progress,
          )
          unless none)

  pub record Out : Type 0 where
    pub producer : String
    pub state : Value
    pub last_error : Value

  pub record Unreachable : Type 0 where
    pub roster : ℕ
    pub quorum : ℕ
    pub durably_out : List Out
    pub at_most_reachable : ℕ

  -- The roster member is this node.
  unfoldable pub is_me : String × String → RosterMember → Bool
  is_me me m = (m.producer == me.0) && is_none_or m.instance_id (λ x. eq_ignore_ascii_case x me.1)

  -- The reports that the relay lists for the member and the event.
  unfoldable pub event_reports : Value → String → RosterMember → List Beacon
  event_reports p event m =
      filter
        (filter (beacons p)
          (λ b. is_text (as_str (index (index b.report "coord") "event_id")) event))
        λ b.
          is_none_or m.instance_id λ id.
            is_some_and (as_str (index b.report "instance_id")) (λ x. eq_ignore_ascii_case x id)

  -- The reports do not prove the member out.
  unfoldable pub reports_fail : ℕ → String → ℕ → List Beacon → Bool
  reports_fail max_age event h reports =
      is_empty reports
      || not (any reports (λ b. is_some_and b.age_ms (λ a. leb a max_age)))
      || any reports (λ b. b.conflict)
      || any reports (λ b. is_some (not_out b.report event h))

  abbrev out_entry : String → Value → Out
  out_entry producer r = record {
    producer = producer;
    state = index (index r "ceremony") "state";
    last_error = index (index r "ceremony") "last_error_class";
  }

  -- The relay's entry shows the member durably out; `seen` are the peers seen VERIFIED in this view.
  unfoldable pub out_by_entry :
      Coordination → FleetMemory → List String → String → ℕ → RosterMember → Value → Option Out
  out_by_entry co mem seen event h m p =
      let em = exit_mark p event in
      let reports = event_reports p event m in
      if not em.exited || em.reentered || not (never_verified em)
      then none
      else if contains mem.verified_peers m.producer || contains seen m.producer
      then none
      else if reports_fail (mul_u64 co.report_max_age_secs 1000) event h reports
      then none
      else map_option (λ b. out_entry m.producer b.report) (first reports)

  -- One round of the loop over the roster.
  unfoldable pub durably_out :
      List Value
      → Coordination
      → String × String
      → FleetMemory
      → List String
      → String
      → ℕ
      → RosterMember
      → Option Out
  durably_out prods co me mem seen event h m =
      if is_me me m
      then none
      else and_then (entry_of prods m.producer) (out_by_entry co mem seen event h m)

  -- A member whose agent may ignore exit marks, or that did not arm with the early abort.
  unfoldable pub agent_unfit : MemberView → Bool
  agent_unfit m =
      let ev = map_option (λ r. index (index r "ceremony") "evidence") m.last in
      not
        (is_some_and (and_then ev (λ e. as_str (index e "agent_version"))) agent_honours_exit_marks)
      || not (is_true (and_then ev (λ e. as_bool (index e "early_abort"))))

  -- The arithmetic of the proof: all who are not out, against the quorum.
  unfoldable pub conclude : ℕ → ℕ → List Out → Option Unreachable
  conclude n q out =
      let possible = n - min (length out) n in
      then_some (ltb possible q)
        (record { roster = n; quorum = q; durably_out = out; at_most_reachable = possible })

  unfoldable pub unreachable_for :
      Value → Coordination → String × String → ℕ → FleetMemory → String → Option Unreachable
  unreachable_for status co me h mem event =
      let all = members status co in
      let seen = peers_seen_verified status co (some me) in
      if not (own_report_visible status co me)
      then none
      else if any all agent_unfit
      then none
      else if any (others (some me) all) (λ m. is_some m.max_past)
      then none
      else conclude (length co.roster) (quorum_of co)
          (filter_map co.roster (durably_out (producers status co.network) co me mem seen event h))

  unfoldable pub quorum_unreachable_with :
      Value → Coordination → Option (String × String) → ℕ → FleetMemory → Option Unreachable
  quorum_unreachable_with status co me h mem =
      if is_err (marks_trusted status co mem)
      then none
      else and_then co.event_id λ event.
        if nat_eq (length co.roster) 0
          || nat_eq (quorum_of co) 0
          || ltb (length co.roster) (quorum_of co)
        then none
        else and_then me λ who. unreachable_for status co who h mem event

  unfoldable pub quorum_unreachable :
      Value → Coordination → Option (String × String) → ℕ → Option Unreachable
  quorum_unreachable status co me h = quorum_unreachable_with status co me h default_memory
