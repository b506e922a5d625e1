-- ===== src/Fleet/Gate/Exclusion.antt =====
-- src/machine.rs `fleet_gate`: the reasons that `exclusion` lists for a report.
use pulse_cutover.Prelude.{
  ◌≡◌, refl, inl, inr, String, Bool, true, false, Option, none, some, List, [], ◌∷◌, map, not, ◌&&◌,
  ◌||◌, is_empty, is_some_and, any, filter, filter_map, contains, arith, Bool-cases, Option-cases,
  mul_u64, then_some, if◌then◌else◌, is_none_or, In, In-any, In-filter,
}
use pulse_cutover.Json.{Json}
use pulse_cutover.Config.{Coordination, RosterMember}
use pulse_cutover.Fleet.Reports.{Beacon, beacons, for_event, is_text, is_true}
use pulse_cutover.Fleet.Members.{entry_of}
use pulse_cutover.Fleet.Gate.{
  Ours, verified_states, fails_health, has_failing_health, is_fresh, failing_names, differing,
  differences, joined, exclusion, same_evidence, agrees, is_usable, reports_of, is_marked,
  counts_entry, counts_member,
}

-- The reasons that there are.
abbrev kept : List (Option String) → List String
kept os = filter_map os (λ o. o)

no_reasons :
    (p q : Bool) (fs ds : List String) (s t f g d e : String)
    → is_empty (kept (then_some p s ∷ then_some q t ∷ joined f g fs ∷ joined d e ds ∷ [])) ≡ true
    → (p ≡ false) × (q ≡ false) × (is_empty fs ≡ true) × (is_empty ds ≡ true)
no_reasons true q fs ds s t f g d e h = cc h
no_reasons false true fs ds s t f g d e h = cc h
no_reasons false false (x ∷ xs) ds s t f g d e h = cc h
no_reasons false false [] (x ∷ xs) s t f g d e h = cc h
no_reasons false false [] [] s t f g d e h = (refl, refl, refl, refl)

none_of :
    (a b c : Option String)
    → is_empty (kept (a ∷ b ∷ c ∷ [])) ≡ true
    → (a ≡ none) × (b ≡ none) × (c ≡ none)
none_of (some x) b c h = cc h
none_of none (some x) c h = cc h
none_of none none (some x) h = cc h
none_of none none none h = (refl, refl, refl)

module _ {A : Type 0} where
  none_pass : (xs : List A) (p : A → Bool) → is_empty (filter xs p) ≡ true → any xs p ≡ false
  none_pass [] p h = refl
  none_pass (x ∷ xs) p h = elim (Bool-cases (p x)) [
    | inl y ↦ cc (rw y at h)
    | inr n ↦ rw n (none_pass xs p (rw n at h))
  ]

  map_empty :
      {B : Type 0} (f : A → B) (xs : List A) → is_empty (map f xs) ≡ true → is_empty xs ≡ true
  map_empty f [] h = refl
  map_empty f (x ∷ xs) h = cc h

exclude_none :
    (rs : List String) (s : String)
    → (if is_empty rs then none else some s) ≡ none
    → is_empty rs ≡ true
exclude_none [] s h = refl
exclude_none (r ∷ rs) s h = cc h

stated_none : (b : Bool) (s : String) → (if b then none else some s) ≡ none → b ≡ true
stated_none true s h = refl
stated_none false s h = cc h

module _ ⦃J : Json⦄ where
  open J use {Value, index, as_str, as_bool, as_array, is_null, same}

  healthy : (r : Value) → is_empty (failing_names r) ≡ true → has_failing_health r ≡ false
  unfolding has_failing_health
  healthy r h = elim (Option-cases (as_array (index r "checks"))) [
    | inl n ↦ rw n refl
    | inr (cs, k) ↦
        rw k (none_pass cs fails_health (map_empty _ (filter cs fails_health) (rw k at h)))
  ]

  -- What a report without a reason is.
  module _ (co : Coordination) (o : Ours) (b : Beacon) where
    exclusion-none :
        exclusion co o b ≡ none
        → (b.conflict ≡ false)
          × (is_fresh (mul_u64 co.report_max_age_secs 1000) b ≡ true)
          × (has_failing_health b.report ≡ false)
          × (is_empty (differences o co.event_id b.report) ≡ true)
    unfolding exclusion
    exclusion-none h =
        let (one, stale, failing, differ) =
          no_reasons b.conflict (not (is_fresh (mul_u64 co.report_max_age_secs 1000) b))
            (failing_names b.report) (differences o co.event_id b.report) _ _ _ _ _ _
            (exclude_none _ _ h) in
        (one, ground (arith, stale), healthy b.report failing, differ)

  module _ (same_null : (a b : Value) → same a b ≡ true → is_null a ≡ true → is_null b ≡ true) where
    same_evidence_of :
        (ours c : Value) (k : String)
        → is_null (index ours k) ≡ false
        → differing ours c k ≡ none
        → same_evidence ours c k ≡ true
    unfolding same_evidence
    same_evidence_of ours c k mine d =
        let theirs = index (index c "evidence") k in
        let equal : same theirs (index ours k) ≡ true =
          let t = stated_none (is_null (index ours k) || same theirs (index ours k)) _ d in
          ground (arith, t, mine) in
        elim (Bool-cases (is_null theirs)) [
          | inl y ↦ cc (mine, same_null theirs (index ours k) equal y)
          | inr n ↦ ground arith
        ]

    usable_agrees :
        (co : Coordination) (o : Ours) (b : Beacon)
        → is_null (index o.evidence "snapshot_sha256") ≡ false
        → is_null (index o.evidence "fingerprints_digest") ≡ false
        → o.upstream && is_null (index o.evidence "protocol_schedule_hash") ≡ false
        → for_event co.event_id b.report ≡ true
        → is_some_and
            (as_str (index (index b.report "ceremony") "state"))
            (contains verified_states)
          ≡ true
        → is_true (as_bool (index (index b.report "ceremony") "aborting")) ≡ false
        → is_true (as_bool (index (index b.report "ceremony") "rollback_pending")) ≡ false
        → exclusion co o b ≡ none
        → is_usable co b && agrees o co.event_id b.report ≡ true
    unfolding agrees
    usable_agrees co o b snap prints sched event state forward kept_on h =
        let (one, fresh, well, differ) = exclusion-none co o b h in
        let c = index b.report "ceremony" in
        let (d1, d2, d3) =
          none_of (differing o.evidence c "snapshot_sha256")
            (differing o.evidence c "fingerprints_digest")
            (differing o.evidence c "protocol_schedule_hash") (rw (event, state) at differ) in
        let s1 = same_evidence_of o.evidence c "snapshot_sha256" snap d1 in
        let s2 = same_evidence_of o.evidence c "fingerprints_digest" prints d2 in
        elim (Bool-cases o.upstream) [
          | inl up ↦
              let s3 =
                same_evidence_of o.evidence c "protocol_schedule_hash" (ground (arith, sched, up))
                  d3 in
              ground arith
          | inr fork ↦ ground arith
        ]

    -- Where serde_json's null equals only null and this node has its evidence: a report of the event that
    -- the relay lists for a roster member, from the instance that the roster pins, if it pins one, that
    -- shows the member VERIFIED or later and not going back, and for which the gate lists no reason, makes
    -- the gate count the member, unless an exit mark names it.
    pub exclusion-counts_member :
        (co : Coordination) (o : Ours) (seen : List String) (prods : List Value) (m : RosterMember)
        (p : Value) (b : Beacon)
        → is_null (index o.evidence "snapshot_sha256") ≡ false
        → is_null (index o.evidence "fingerprints_digest") ≡ false
        → o.upstream && is_null (index o.evidence "protocol_schedule_hash") ≡ false
        → entry_of prods m.producer ≡ some p
        → In b (beacons p)
        → is_marked co.event_id seen p ≡ false
        → is_none_or m.instance_id (λ id. is_text (as_str (index b.report "instance_id")) id) ≡ true
        → for_event co.event_id b.report ≡ true
        → is_some_and
            (as_str (index (index b.report "ceremony") "state"))
            (contains verified_states)
          ≡ true
        → is_true (as_bool (index (index b.report "ceremony") "aborting")) ≡ false
        → is_true (as_bool (index (index b.report "ceremony") "rollback_pending")) ≡ false
        → exclusion co o b ≡ none
        → counts_member co o seen prods m ≡ true
    unfolding counts_member counts_entry reports_of
    exclusion-counts_member co o seen prods m p b snap prints sched listed shown unmarked pinned
          event state forward kept_on h =
        let fit = usable_agrees co o b snap prints sched event state forward kept_on h in
        let usable : is_usable co b ≡ true = ground (arith, fit) in
        let agreed : agrees o co.event_id b.report ≡ true = ground (arith, fit) in
        rw (listed, unmarked)
          (In-any _ _ b (In-filter (is_usable co) (beacons p) b shown usable)
            (rw (pinned, agreed) refl))
