-- ===== src/Fleet/Resume.antt =====
-- src/fleet.rs, `resume_guard_with`: may an agent that froze writes resume the old chain?
pub mod Memory
pub mod Evidence
pub mod Safety
pub mod Accounting
use pulse_cutover.Prelude.{
  ℕ, ◌*◌, String, Bool, true, false, Option, none, some, List, [], ◌∷◌, map, not, ◌&&◌, ◌||◌, ◌==◌,
  length, if◌then◌else◌, is_empty, is_some, is_some_and, is_none_or, is_none, any, leb, nat_eq,
  unwrap_or, contains, and_then, map_option, or_else, filter, find_map, mul_u64,
  eq_ignore_ascii_case, ltb,
}
use pulse_cutover.Json.{Json}
use pulse_cutover.Config.{Coordination}
use pulse_cutover.Fleet.Reports.{Beacon, beacons, producers, past_create, for_event, is_text}
use pulse_cutover.Fleet.Members.{MemberView, members, PastCreation}
use pulse_cutover.Fleet.Marks.{FleetMemory, default_memory, marks_not_lost}
use pulse_cutover.Fleet.Result.{
  Result, ok, err, Refusal, ◌>>=◌, ◌>>◌, refuse_if, no_roster_or_quorum, relay_silent,
  own_beacon_not_visible, other_h_past_creation, reported_past_creation, unreported,
  identity_conflicted, stale_report, past_creation, quorum_may_have_verified, quorum_in_ceremony,
}

unfoldable pub quorum_of : Coordination → ℕ
quorum_of co = if ltb 0 co.fleet_quorum then co.fleet_quorum else length co.roster

-- One entry of the proof's `members`.
pub record Seen : Type 0 where
  pub producer : String
  pub state : String
  pub fresh : Bool
  pub verified_mark : Bool

-- The proof that the guard returns; `by` is the text that tells the two rules apart.
pub record ResumeProof : Type 0 where
  pub seen : List Seen
  pub still_in_ceremony : List String
  pub quorum : ℕ
  pub by_signed_abort : Bool

abbrev pub refuse : Option Refusal → Result (Unit {0})
refuse none = ok tt
refuse (some e) = err e

abbrev pub has_left : String → Bool
has_left st = (st == "ABORTED") || (st == "STRANDED")

-- The end of the guard: who may have verified, and who is still in the ceremony, against the quorum.
unfoldable pub judge_quorum : ℕ → Bool → List String → List Seen × List String → Result ResumeProof
judge_quorum q signed_abort may_have acc = do
  refuse_if (signed_abort && leb q (length may_have)) (quorum_may_have_verified may_have q)
  refuse_if (not signed_abort && leb q (length acc.1)) (quorum_in_ceremony acc.1 q)
  ok (record {
    seen = acc.0;
    still_in_ceremony = acc.1;
    quorum = q;
    by_signed_abort = signed_abort;
  })

module _ ⦃J : Json⦄ where
  open J use {Value, index, as_str}

  unfoldable pub is_self : Option (String × String) → MemberView → Bool
  is_self me m =
      is_some_and me (λ who. (m.producer == who.0) && is_none_or m.instance_id (λ i. i == who.1))

  own_report : Coordination → String × String → Beacon → Bool
  own_report co me b =
      not b.conflict
      && is_some_and b.age_ms (λ a. leb a (mul_u64 co.report_max_age_secs 1000))
      && for_event co.event_id b.report
      && is_none_or (as_str (index b.report "instance_id")) (λ i. eq_ignore_ascii_case i me.1)

  -- This node's own fresh report for the event, from this instance.
  unfoldable pub own_report_visible : Value → Coordination → String × String → Bool
  unfolding producers beacons own_report
  own_report_visible status co me =
      any (filter (producers status co.network) (λ p. is_text (as_str (index p "name")) me.0))
        (λ p. any (beacons p) (own_report co me))

  unfoldable pub own_missing :
      Value → Coordination → Option (String × String) → List MemberView → Bool
  own_missing status co me all =
      let mine = filter all (is_self me) in
      is_none me
      || is_empty mine
      || any mine (λ m. m.missing || m.conflict || is_none m.report)
      || not (is_some_and me (own_report_visible status co))

  abbrev pub others : Option (String × String) → List MemberView → List MemberView
  others me all = filter all (λ m. not (is_self me m))

  -- A member whose report was kept from a ceremony for another H that is past creation.
  unfoldable pub other_h : MemberView → Option Refusal
  other_h m =
      and_then (or_else m.report m.last)
        λ r. map_option (other_h_past_creation m.producer) (as_str (index r "foreign_past_create"))

  unfoldable pub reported_past : MemberView → Option Refusal
  reported_past m = map_option (reported_past_creation m.producer) m.max_past

  abbrev pub state_of : Value → String
  state_of r = unwrap_or (as_str (index (index r "ceremony") "state")) "none"

  abbrev pub verified : FleetMemory → MemberView → Bool
  verified mem m = m.verified_mark || contains mem.verified_peers m.producer

  -- The report that the guard reads of a member.
  abbrev pub report_read : Bool → MemberView → Option Value
  report_read signed_abort m = if signed_abort then m.last else m.report

  -- Still in the ceremony, as far as the guard can tell.
  unfoldable pub in_ceremony : Bool → FleetMemory → MemberView → Value → Bool
  in_ceremony signed_abort mem m r =
      not (has_left (state_of r)) || (not signed_abort && verified mem m)

  read_member : Bool → FleetMemory → MemberView → ℕ → Option Value → Result (Seen × Bool)
  unfolding in_ceremony
  read_member signed_abort mem m secs none = err (stale_report m.producer secs)
  read_member signed_abort mem m secs (some r) = do
    refuse_if (past_create r) (past_creation m.producer (state_of r))
    let seen : Seen = record {
      producer = m.producer;
      state = state_of r;
      fresh = is_some m.report;
      verified_mark = verified mem m;
    }
    ok (seen, in_ceremony signed_abort mem m r)

  -- One round of the guard's loop over the other members.
  unfoldable pub account : Coordination → Bool → FleetMemory → MemberView → Result (Seen × Bool)
  unfolding read_member
  account co signed_abort mem m = do
    refuse_if m.missing (unreported m.producer)
    refuse_if m.conflict (identity_conflicted m.producer)
    read_member signed_abort mem m co.report_max_age_secs (report_read signed_abort m)

  unfoldable pub account_all :
      Coordination → Bool → FleetMemory → List MemberView → Result (List Seen × List String)
  account_all co signed_abort mem [] = ok ([], [])
  account_all co signed_abort mem (m ∷ ms) = do
    one ← account co signed_abort mem m
    rest ← account_all co signed_abort mem ms
    ok (one.0 ∷ rest.0, if one.1 then m.producer ∷ rest.1 else rest.1)

  abbrev pub names : List MemberView → List String
  names ms = map (λ m. m.producer) ms

  -- The guard past its first tests: `all` is the fleet that the status shows.
  unfoldable pub guard_fleet :
      Value
      → Coordination
      → Option (String × String)
      → Bool
      → FleetMemory
      → List MemberView
      → Result ResumeProof
  guard_fleet status co me signed_abort mem all = do
    refuse_if (own_missing status co me all) own_beacon_not_visible
    refuse (find_map (others me all) other_h)
    refuse (find_map (others me all) reported_past)
    acc ← account_all co signed_abort mem (others me all)
    judge_quorum (quorum_of co) signed_abort (names (filter all (verified mem))) acc

  unfoldable pub resume_guard_with :
      Option Value
      → Coordination
      → Option (String × String)
      → Bool
      → FleetMemory
      → Result ResumeProof
  resume_guard_with status co me signed_abort mem = do
    refuse_if (is_empty co.roster || nat_eq (quorum_of co) 0) no_roster_or_quorum
    elim status [
      | none ↦ err relay_silent
      | some st ↦ do marks_not_lost st co mem; guard_fleet st co me signed_abort mem (members st co)
    ]

  unfoldable pub resume_guard :
      Option Value → Coordination → Option (String × String) → Bool → Result ResumeProof
  unfolding resume_guard_with
  resume_guard status co me signed_abort =
      resume_guard_with status co me signed_abort default_memory
