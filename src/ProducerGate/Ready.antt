-- ===== src/ProducerGate/Ready.antt =====
-- src/producer_gate.rs, `relay_problems`, against what it asks of a report.
use pulse_cutover.Prelude.{
  filter_map-nil, ℕ, ◌≤◌, ◌≡◌, ◌↔◌, refl, inl, inr, String, true, false, Option, none, some, List,
  [], ◌∷◌, find, is_empty, contains, unwrap_or, eq_ignore_ascii_case, All, In, arith, Bool-cases,
  Option-cases, or_false, subst, In-is_empty, All-map,
}
use pulse_cutover.Json.{Json}
use pulse_cutover.Version.{version_at_least}
use pulse_cutover.Fleet.Reports.{is_text}
use pulse_cutover.ProducerGate.{Gate, member_of}
use pulse_cutover.ProducerGate.Relay.{
  Lack, GateReport, gate_reports, other_role, check_green, agent_version_of, lacks_of, better,
  first_ready, member_problem, gate_producers, relay_problems,
}
use pulse_cutover.ProducerGate.Relay.Tests.{
  lack_if-nil, last_lack, is_empty-nil, not-false, some_and, text_eq, num_eq, fresh_age,
  nil-lack_if, nil-last_lack, not-true-false, eq_text, eq_num, and_some, nil-filter_map,
  map_option-none, map_none,
}

module _ ⦃J : Json⦄ (g : Gate) (event_id : String) (max_age_ms : ℕ) (states : List String) where
  open J use {Value, index, as_str, as_u64}

  -- A report that satisfies the gate.
  pub record Ready (b : GateReport) : Type 0 where
    pub producer_role : other_role b.report ≡ false
    pub unconflicted : b.conflict ≡ false
    pub heard : b.silent ≡ false
    pub age : ℕ
    pub age_eq : b.age_ms ≡ some age
    pub fresh : age ≤ max_age_ms
    pub this_event : as_str (index (index b.report "coord") "event_id") ≡ some event_id
    pub in_state :
        contains states (unwrap_or (as_str (index (index b.report "ceremony") "state")) "none")
        ≡ true
    pub this_cut : as_u64 (index (index (index b.report "ceremony") "evidence") "h") ≡ some g.h
    pub gate_hash : String
    pub gate_hash_eq :
        as_str (index (index (index b.report "ceremony") "evidence") "producer_gate_sha256")
        ≡ some gate_hash
    pub this_gate : eq_ignore_ascii_case gate_hash g.sha256 ≡ true
    pub agent : String
    pub agent_eq : agent_version_of b.report ≡ some agent
    pub new_enough : version_at_least agent g.min_version ≡ true
    pub lock : check_green b.report "admission_lock" ≡ true
    pub probe : check_green b.report "admission_lock_probe" ≡ true

  lacks_of-Ready :
      (b : GateReport)
      → other_role b.report ≡ false
      → lacks_of g event_id max_age_ms states b ≡ []
      → Ready b
  unfolding lacks_of
  lacks_of-Ready b role h =
      let a1 = lack_if-nil _ _ _ h in
      let a2 = lack_if-nil _ _ _ a1.1 in
      let a3 = lack_if-nil _ _ _ a2.1 in
      let a4 = lack_if-nil _ _ _ a3.1 in
      let a5 = lack_if-nil _ _ _ a4.1 in
      let a6 = lack_if-nil _ _ _ a5.1 in
      let a7 = lack_if-nil _ _ _ a6.1 in
      let a8 = lack_if-nil _ _ _ a7.1 in
      let old = or_false b.silent _ a2.0 in
      let (age, age_eq, fresh) = fresh_age b.age_ms max_age_ms old.1 in
      let (hash, hash_eq, same) = some_and _ _ (not-false _ a6.0) in
      let (agent, agent_eq, new) = some_and _ _ (not-false _ a7.0) in
      record {
        producer_role = role;
        unconflicted = a1.0;
        heard = old.0;
        age = age;
        age_eq = age_eq;
        fresh = fresh;
        this_event = text_eq _ event_id (not-false _ a3.0);
        in_state = not-false _ a4.0;
        this_cut = num_eq _ g.h (not-false _ a5.0);
        gate_hash = hash;
        gate_hash_eq = hash_eq;
        this_gate = same;
        agent = agent;
        agent_eq = agent_eq;
        new_enough = new;
        lock = not-false _ a8.0;
        probe = not-false _ (last_lack _ _ a8.1);
      }

  Ready-lacks_of : (b : GateReport) → Ready b → lacks_of g event_id max_age_ms states b ≡ []
  unfolding lacks_of
  Ready-lacks_of b r = nil-lack_if _ _ _ r.unconflicted (
      nil-lack_if _ _ _ (ground (arith, r.heard, r.age_eq, r.fresh)) (
        nil-lack_if _ _ _ (not-true-false _ (eq_text _ event_id r.this_event)) (
          nil-lack_if _ _ _ (not-true-false _ r.in_state) (
            nil-lack_if _ _ _ (not-true-false _ (eq_num _ g.h r.this_cut)) (
              nil-lack_if _ _ _ (not-true-false _ (and_some _ _ r.gate_hash_eq r.this_gate)) (
                nil-lack_if _ _ _ (not-true-false _ (and_some _ _ r.agent_eq r.new_enough)) (
                  nil-lack_if _ _ _ (not-true-false _ r.lock)
                    (nil-last_lack _ _ (not-true-false _ r.probe)))))))))

  later :
      (b : GateReport) (bs : List GateReport)
      → ((x : GateReport) × In x bs × Ready x)
      → (x : GateReport) × In x (b ∷ bs) × Ready x
  later b bs (x, i, r) = (x, inr i, r)

  -- The loop over the reports ends green exactly when one of them is ready.
  first_ready-Ready :
      (best : Option (List Lack)) (bs : List GateReport)
      → first_ready g event_id max_age_ms states best bs ≡ none
      → (b : GateReport) × In b bs × Ready b
  unfolding first_ready
  first_ready-Ready best [] h = cc
  first_ready-Ready best (b ∷ bs) h = elim (Bool-cases (other_role b.report)) [
    | inl o ↦ later b bs (first_ready-Ready best bs (rw o at h))
    | inr o ↦ elim (Bool-cases (is_empty (lacks_of g event_id max_age_ms states b))) [
      | inl e ↦ (b, inl refl, lacks_of-Ready b o (is_empty-nil _ e))
      | inr e ↦ later b bs (
          first_ready-Ready (better best (lacks_of g event_id max_age_ms states b)) bs
            (rw (o, e) at h))
    ]
  ]

  Ready-first_ready :
      (best : Option (List Lack)) (bs : List GateReport) (b : GateReport)
      → In b bs
      → Ready b
      → first_ready g event_id max_age_ms states best bs ≡ none
  unfolding first_ready
  Ready-first_ready best [] b i r = absurd i
  Ready-first_ready best (x ∷ bs) b (inl e) r =
      let q : Ready x = subst Ready e r in rw (q.producer_role, Ready-lacks_of x q)
  Ready-first_ready best (x ∷ bs) b (inr i) r = ground (
    arith,
    Ready-first_ready best bs b i r,
    Ready-first_ready (better best (lacks_of g event_id max_age_ms states x)) bs b i r,
  )

  -- The relay shows a ready report of the member.
  pub record MemberReady (producers : List Value) (member : String) : Type 0 where
    pub entry : Value
    pub listed : find producers (λ p. is_text (as_str (index p "name")) member) ≡ some entry
    pub report : GateReport
    pub among : In report (gate_reports entry)
    pub ready : Ready report

  member_problem-MemberReady :
      (producers : List Value) (member : String)
      → member_problem producers member g event_id max_age_ms states ≡ none
      → MemberReady producers member
  unfolding member_problem
  member_problem-MemberReady producers member h =
      elim (Option-cases (find producers (λ p. is_text (as_str (index p "name")) member))) [
        | inl e ↦ cc (rw (e, member_problem) at h)
        | inr (p, e) ↦ elim (Bool-cases (is_empty (gate_reports p))) [
          | inl k ↦ cc (rw (e, member_problem, k) at h)
          | inr k ↦
              let (b, i, r) =
                first_ready-Ready none (gate_reports p) (rw (e, member_problem, k) at h) in
              record { entry = p; listed = e; report = b; among = i; ready = r }
        ]
      ]

  MemberReady-member_problem :
      (producers : List Value) (member : String)
      → MemberReady producers member
      → member_problem producers member g event_id max_age_ms states ≡ none
  unfolding member_problem
  MemberReady-member_problem producers member m =
      rw (m.listed, member_problem, In-is_empty (gate_reports m.entry) m.report m.among)
        (Ready-first_ready none (gate_reports m.entry) m.report m.among m.ready)

  -- The relay check finds no problem exactly when the member of every required name has a ready report.
  pub relay_problems_iff :
      (status : Value) (network : String)
      → (relay_problems g status network event_id max_age_ms states ≡ [])
        ↔ All (λ name. MemberReady (gate_producers status network) (member_of g name)) g.required
  unfolding relay_problems
  relay_problems_iff status network = (
    λ h.
        All-map _ _ g.required
          (λ n k. member_problem-MemberReady _ (member_of g n) (map_option-none _ _ k))
          (filter_map-nil g.required _ h),
    λ h. nil-filter_map g.required _ (
        All-map _ _ g.required (λ n m. map_none _ (MemberReady-member_problem _ (member_of g n) m))
          h),
  )
