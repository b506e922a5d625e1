-- ===== src/Fleet/Gate/Agreement.antt =====
-- src/machine.rs `fleet_gate`: the members that an open gate counts.
use pulse_cutover.Prelude.{
  ◌≤◌, ◌≡◌, inl, inr, ◌⊎◌, String, Bool, true, false, some, List, length, is_empty, is_some_and,
  is_none_or, filter, contains, arith, Bool-cases, Option-cases, mul_u64, In, ◌&&◌, any-In,
  filter-In,
}
use pulse_cutover.Json.{Json}
use pulse_cutover.Config.{Coordination, RosterMember}
use pulse_cutover.Fleet.Reports.{Beacon, beacons, for_event, is_text, is_true}
use pulse_cutover.Fleet.Members.{entry_of}
use pulse_cutover.Fleet.Resume.{quorum_of}
use pulse_cutover.Fleet.Gate.{
  Ours, verified_states, has_failing_health, same_evidence, agrees, is_usable, is_fresh, reports_of,
  is_marked, counts_entry, counts_member, agreeing, gate_open,
}

module _ ⦃J : Json⦄ where
  open J use {Value, index, as_str, as_bool, as_array, is_null, same}

  -- Evidence that both have, and that is equal.
  pub record SameEvidence (ours theirs : Value) : Type 0 where
    pub we_have : is_null ours ≡ false
    pub they_have : is_null theirs ≡ false
    pub equal : same theirs ours ≡ true

  -- One of the member's reports is of one machine, fresh, healthy, of this member and this event, VERIFIED
  -- or later and not going back, with the same evidence as this node's; the member is not marked.
  pub record Counted (co : Coordination) (o : Ours) (seen : List String) (prods : List Value)
      (m : RosterMember) : Type 0 where
    pub entry : Value
    pub listed : entry_of prods m.producer ≡ some entry
    pub unmarked : is_marked co.event_id seen entry ≡ false
    pub sent : Beacon
    pub of_entry : In sent (beacons entry)
    pub one_machine : sent.conflict ≡ false
    pub fresh : is_fresh (mul_u64 co.report_max_age_secs 1000) sent ≡ true
    pub healthy : has_failing_health sent.report ≡ false
    pub own :
        is_none_or m.instance_id (λ id. is_text (as_str (index sent.report "instance_id")) id)
        ≡ true
    pub this_event : for_event co.event_id sent.report ≡ true
    pub verified :
        is_some_and
          (as_str (index (index sent.report "ceremony") "state"))
          (contains verified_states)
        ≡ true
    pub not_aborting : is_true (as_bool (index (index sent.report "ceremony") "aborting")) ≡ false
    pub not_pending :
        is_true (as_bool (index (index sent.report "ceremony") "rollback_pending")) ≡ false
    pub snapshot :
        SameEvidence
          (index o.evidence "snapshot_sha256")
          (index (index (index sent.report "ceremony") "evidence") "snapshot_sha256")
    pub fingerprints :
        SameEvidence
          (index o.evidence "fingerprints_digest")
          (index (index (index sent.report "ceremony") "evidence") "fingerprints_digest")
    pub schedule :
        (o.upstream ≡ false)
        ⊎ SameEvidence
            (index o.evidence "protocol_schedule_hash")
            (index (index (index sent.report "ceremony") "evidence") "protocol_schedule_hash")

  same_evidence-SameEvidence :
      (ours c : Value) (k : String)
      → same_evidence ours c k ≡ true
      → SameEvidence (index ours k) (index (index c "evidence") k)
  unfolding same_evidence
  same_evidence-SameEvidence ours c k e = record {
    we_have = ground arith;
    they_have = ground arith;
    equal = ground arith;
  }

  module _ (co : Coordination) (o : Ours) (seen : List String) (prods : List Value)
      (m : RosterMember) where
    abbrev is_own : Beacon → Bool
    is_own b = is_none_or m.instance_id (λ id. is_text (as_str (index b.report "instance_id")) id)

    report-Counted :
        (p : Value) (b : Beacon)
        → entry_of prods m.producer ≡ some p
        → is_marked co.event_id seen p ≡ false
        → In b (beacons p)
        → is_usable co b ≡ true
        → is_own b && agrees o co.event_id b.report ≡ true
        → Counted co o seen prods m
    unfolding agrees
    report-Counted p b l u i usable a =
        let c = index b.report "ceremony" in
        record {
          entry = p;
          listed = l;
          unmarked = u;
          sent = b;
          of_entry = i;
          one_machine = ground arith;
          fresh = ground arith;
          healthy = ground arith;
          own = ground arith;
          this_event = ground arith;
          verified = ground arith;
          not_aborting = ground arith;
          not_pending = ground arith;
          snapshot = same_evidence-SameEvidence o.evidence c "snapshot_sha256" (ground arith);
          fingerprints =
              same_evidence-SameEvidence o.evidence c "fingerprints_digest" (ground arith);
          schedule = elim (Bool-cases o.upstream) [
            | inl up ↦
                inr
                  (same_evidence-SameEvidence o.evidence c "protocol_schedule_hash" (ground arith))
            | inr up ↦ inl up
          ];
        }

    counts_entry-Counted :
        (p : Value)
        → entry_of prods m.producer ≡ some p
        → counts_entry co o seen m p ≡ true
        → Counted co o seen prods m
    unfolding counts_entry reports_of
    counts_entry-Counted p l e =
        let (b, i, k) =
          any-In (λ b. is_own b && agrees o co.event_id b.report) (reports_of co p)
            (ground arith) in
        let (j, u) = filter-In (is_usable co) (beacons p) b i in
        report-Counted p b l (ground arith) j u k

    counts_member-Counted : counts_member co o seen prods m ≡ true → Counted co o seen prods m
    unfolding counts_member
    counts_member-Counted e = elim (Option-cases (entry_of prods m.producer)) [
      | inl n ↦ cc (rw n at e)
      | inr (p, l) ↦ counts_entry-Counted p l (rw l at e)
    ]

  -- An open gate of an event with a roster counts as many members of the roster as the quorum, and each
  -- member that it counts is on the roster, is unmarked and has a report of one machine, fresh, healthy
  -- and of this event, that shows it VERIFIED or later and not going back, with the evidence that this
  -- node has.
  pub gate_open-Counted :
      (co : Coordination) (o : Ours) (seen : List String) (prods : List Value) (m : RosterMember)
      → is_empty co.roster ≡ false
      → gate_open co o seen prods ≡ true
      → In m (filter co.roster (counts_member co o seen prods))
      → (quorum_of co ≤ length (filter co.roster (counts_member co o seen prods)))
        × In m co.roster
        × Counted co o seen prods m
  unfolding gate_open agreeing
  gate_open-Counted co o seen prods m bound e i =
      let (j, c) = filter-In (counts_member co o seen prods) co.roster m i in
      (ground arith, j, counts_member-Counted co o seen prods m c)
