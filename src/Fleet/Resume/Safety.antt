-- ===== src/Fleet/Resume/Safety.antt =====
-- src/fleet.rs, `resume_guard_with`: the conditions under which an agent may resume the old chain.
use pulse_cutover.Prelude.{
  ℕ, ◌<◌, ◌≡◌, ◌↔◌, refl, ap, inl, inr, String, Bool, true, false, Option, none, some, List, [],
  ◌∷◌, ◌||◌, length, filter, find_map, All, arith, Option-cases, is_empty, is_none, any, nat_eq,
  or_false, find_map-none, find_map_all_none, All-map, length-map,
}
use pulse_cutover.Json.{Json}
use pulse_cutover.Config.{Coordination}
use pulse_cutover.Fleet.Members.{MemberView, members}
use pulse_cutover.Fleet.Marks.{FleetMemory, marks_not_lost}
use pulse_cutover.Fleet.Result.{
  Result, Refusal, ok, ◌>>◌, refuse_if-eq-ok, >>=-eq-ok, is_err, eq-ok_of_not_err,
}
use pulse_cutover.Fleet.Resume.{
  Seen, ResumeProof, account_all, other_h, reported_past, own_missing, own_report_visible, is_self,
  others, refuse, verified, quorum_of, judge_quorum, guard_fleet, resume_guard_with,
}
use pulse_cutover.Fleet.Resume.Accounting.{
  Accounted, stays, account_all-Accounted, Accounted-account_all,
}

module _ ⦃J : Json⦄ where
  open J use {Value}

  -- The node's own report is on the relay, fresh and unconflicted.
  pub record OwnVisible (status : Value) (co : Coordination) (me : Option (String × String))
      (all : List MemberView) : Type 0 where
    pub who : String × String
    pub who_eq : me ≡ some who
    pub seen : own_report_visible status co who ≡ true
    pub listed : is_empty (filter all (is_self me)) ≡ false
    pub usable :
        All
          (λ m. (m.missing ≡ false) × (m.conflict ≡ false) × (is_none m.report ≡ false))
          (filter all (is_self me))

  pub record ResumeSafe (status : Value) (co : Coordination) (me : Option (String × String))
      (signed_abort : Bool) (mem : FleetMemory) : Type 0 where
    pub rostered : is_empty co.roster ≡ false
    pub quorum_pos : 0 < quorum_of co
    pub marks_kept : is_err (marks_not_lost status co mem) ≡ false
    pub own_visible : OwnVisible status co me (members status co)
    pub accounted : All (Accounted signed_abort) (others me (members status co))
    pub unreported_past : All (λ m. m.max_past ≡ none) (others me (members status co))
    pub same_h : All (λ m. other_h m ≡ none) (others me (members status co))
    pub out_of_reach :
        signed_abort ≡ false
        → length (filter (others me (members status co)) (stays signed_abort mem)) < quorum_of co
    pub unverified :
        signed_abort ≡ true → length (filter (members status co) (verified mem)) < quorum_of co

  any_unusable :
      (ms : List MemberView)
      → any ms (λ m. m.missing || m.conflict || is_none m.report) ≡ false
      → All (λ m. (m.missing ≡ false) × (m.conflict ≡ false) × (is_none m.report ≡ false)) ms
  any_unusable [] h = tt
  any_unusable (m ∷ ms) h = (ground arith, any_unusable ms (ground arith))

  usable_any :
      (ms : List MemberView)
      → All (λ m. (m.missing ≡ false) × (m.conflict ≡ false) × (is_none m.report ≡ false)) ms
      → any ms (λ m. m.missing || m.conflict || is_none m.report) ≡ false
  usable_any [] h = refl
  usable_any (m ∷ ms) h = ground (arith, usable_any ms h.1)

  own_missing-OwnVisible :
      (status : Value) (co : Coordination) (me : Option (String × String)) (all : List MemberView)
      → own_missing status co me all ≡ false
      → OwnVisible status co me all
  unfolding own_missing
  own_missing-OwnVisible status co none all h = ground arith
  own_missing-OwnVisible status co (some who) all h = record {
    who = who;
    who_eq = refl;
    seen = ground arith;
    listed = ground arith;
    usable = any_unusable _ (ground arith);
  }

  OwnVisible-own_missing :
      (status : Value) (co : Coordination) (me : Option (String × String)) (all : List MemberView)
      → OwnVisible status co me all
      → own_missing status co me all ≡ false
  unfolding own_missing
  OwnVisible-own_missing status co me all v =
      ground (arith, usable_any (filter all (is_self me)) v.usable)

  reported_past-none : (m : MemberView) → reported_past m ≡ none → m.max_past ≡ none
  unfolding reported_past
  reported_past-none m h = ground arith

  refuse_find :
      {A : Type 0} (xs : List A) (f : A → Option Refusal) (k : Result ResumeProof) {p : ResumeProof}
      → (refuse (find_map xs f) >> k) ≡ ok p
      → All (λ x. f x ≡ none) xs × (k ≡ ok p)
  refuse_find xs f k h = elim (Option-cases (find_map xs f)) [
    | inl e ↦ (find_map-none xs f e, rw e at h)
    | inr (y, e) ↦ absurd (cc (rw e at h))
  ]

  judge_quorum-eq-ok :
      (q : ℕ) (signed_abort : Bool) (may_have : List String) (acc : List Seen × List String)
      {p : ResumeProof}
      → judge_quorum q signed_abort may_have acc ≡ ok p
      → (signed_abort ≡ true → length may_have < q) × (signed_abort ≡ false → length acc.1 < q)
  unfolding judge_quorum
  judge_quorum-eq-ok q true may_have acc h = (λ _. ground arith, λ e. absurd (cc e))
  judge_quorum-eq-ok q false may_have acc h = (λ e. absurd (cc e), λ _. ground arith)

  guard_fleet-ResumeSafe :
      (status : Value) (co : Coordination) (me : Option (String × String)) (signed_abort : Bool)
      (mem : FleetMemory) {p : ResumeProof}
      → is_empty co.roster ≡ false
      → 0 < quorum_of co
      → is_err (marks_not_lost status co mem) ≡ false
      → guard_fleet status co me signed_abort mem (members status co) ≡ ok p
      → ResumeSafe status co me signed_abort mem
  unfolding guard_fleet
  guard_fleet-ResumeSafe status co me signed_abort mem ro q marks h =
      let all = members status co in
      let a = refuse_if-eq-ok (own_missing status co me all) _ _ h in
      let b = refuse_find (others me all) other_h _ a.1 in
      let c = refuse_find (others me all) reported_past _ b.1 in
      let (acc, e, d) = >>=-eq-ok (account_all co signed_abort mem (others me all)) _ c.1 in
      let u = judge_quorum-eq-ok (quorum_of co) signed_abort _ acc d in
      let l = account_all-Accounted co signed_abort mem (others me all) e in
      record {
        rostered = ro;
        quorum_pos = q;
        marks_kept = marks;
        own_visible = own_missing-OwnVisible status co me all a.0;
        accounted = l.0;
        unreported_past = All-map _ _ (others me all) (λ m. reported_past-none m) c.0;
        same_h = b.0;
        out_of_reach = λ s. omega (
          arith,
          u.1 s,
          ap length l.1,
          length-map (filter (others me all) (stays signed_abort mem)) (λ m. m.producer),
        );
        unverified =
            λ s. omega (arith, u.0 s, length-map (filter all (verified mem)) (λ m. m.producer));
      }

  pub resume_guard-ResumeSafe :
      (status : Value) (co : Coordination) (me : Option (String × String)) (signed_abort : Bool)
      (mem : FleetMemory)
      → is_err (resume_guard_with (some status) co me signed_abort mem) ≡ false
      → ResumeSafe status co me signed_abort mem
  unfolding resume_guard_with
  resume_guard-ResumeSafe status co me signed_abort mem h =
      let (p, e) = eq-ok_of_not_err _ h in
      let a = refuse_if-eq-ok (is_empty co.roster || nat_eq (quorum_of co) 0) _ _ e in
      let o = or_false (is_empty co.roster) (nat_eq (quorum_of co) 0) a.0 in
      let (u, marks, g) = >>=-eq-ok (marks_not_lost status co mem) _ a.1 in
      guard_fleet-ResumeSafe status co me signed_abort mem o.0 (ground (arith, o.1))
        (ap is_err marks) g

  refuse-none :
      {A : Type 0} (xs : List A) (f : A → Option Refusal)
      → All (λ x. f x ≡ none) xs
      → refuse (find_map xs f) ≡ ok tt
  refuse-none xs f h = rw (find_map_all_none xs f h)

  none-reported_past : (m : MemberView) → m.max_past ≡ none → reported_past m ≡ none
  unfolding reported_past
  none-reported_past m h = ground arith

  judge_quorum_ok :
      (q : ℕ) (signed_abort : Bool) (may_have : List String) (acc : List Seen × List String)
      → (signed_abort ≡ true → length may_have < q)
      → (signed_abort ≡ false → length acc.1 < q)
      → is_err (judge_quorum q signed_abort may_have acc) ≡ false
  unfolding judge_quorum
  judge_quorum_ok q true may_have acc h k = ground (arith, h refl)
  judge_quorum_ok q false may_have acc h k = ground (arith, k refl)

  pub ResumeSafe-resume_guard :
      (status : Value) (co : Coordination) (me : Option (String × String)) (signed_abort : Bool)
      (mem : FleetMemory)
      → ResumeSafe status co me signed_abort mem
      → is_err (resume_guard_with (some status) co me signed_abort mem) ≡ false
  unfolding resume_guard_with guard_fleet
  ResumeSafe-resume_guard status co me signed_abort mem s =
      let all = members status co in
      let own = OwnVisible-own_missing status co me all s.own_visible in
      let h1 = refuse-none (others me all) other_h s.same_h in
      let h2 =
        refuse-none (others me all) reported_past
          (All-map _ _ (others me all) (λ m. none-reported_past m) s.unreported_past) in
      let (acc, e) =
        eq-ok_of_not_err _
          (Accounted-account_all co signed_abort mem (others me all) s.accounted) in
      let l = account_all-Accounted co signed_abort mem (others me all) e in
      let z : nat_eq (quorum_of co) 0 ≡ false = ground (arith, s.quorum_pos) in
      let (u, marks) = eq-ok_of_not_err _ s.marks_kept in
      rw (s.rostered, z, marks, own, h1, h2, e)
        (judge_quorum_ok (quorum_of co) signed_abort _ acc
          (λ k.
            omega (arith, s.unverified k, length-map (filter all (verified mem)) (λ m. m.producer)))
          (λ k. omega (
            arith,
            s.out_of_reach k,
            ap length l.1,
            length-map (filter (others me all) (stays signed_abort mem)) (λ m. m.producer),
          )))

  -- The guard lets an agent resume the old chain exactly when all of `ResumeSafe` holds.
  pub resume_guard_iff :
      (status : Value) (co : Coordination) (me : Option (String × String)) (signed_abort : Bool)
      (mem : FleetMemory)
      → (is_err (resume_guard_with (some status) co me signed_abort mem) ≡ false)
        ↔ ResumeSafe status co me signed_abort mem
  resume_guard_iff status co me signed_abort mem = (
    resume_guard-ResumeSafe status co me signed_abort mem,
    ResumeSafe-resume_guard status co me signed_abort mem,
  )
