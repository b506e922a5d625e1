-- ===== src/Fleet/Resume/Evidence.antt =====
-- src/fleet.rs, `resume_guard_with`: what the relay shows of a member's chain creation.
use pulse_cutover.Prelude.{
  ◌≡◌, refl, sym, ap, ◌∙◌, subst, inl, inr, String, Bool, true, false, Option, none, some, List,
  not, map, is_empty, In, arith, Bool-cases, find_map-none, All-In, In-map, In-filter, In-first,
  In-is_empty, or_else, find_map,
}
use pulse_cutover.Json.{Json}
use pulse_cutover.Config.{Coordination, RosterMember}
use pulse_cutover.Fleet.Reports.{Beacon, past_create, producers}
use pulse_cutover.Fleet.Members.{
  members, member_view, wanted, entry_of, event_mark, log_evidence, member_beacons, past_of,
  mark_past, log_past, report_past,
}
use pulse_cutover.Fleet.Marks.{FleetMemory}
use pulse_cutover.Fleet.Result.{is_err}
use pulse_cutover.Fleet.Resume.{is_self, others, resume_guard_with}
use pulse_cutover.Fleet.Resume.Safety.{resume_guard-ResumeSafe}

module _ ⦃J : Json⦄ where
  open J use {Value, index, as_bool, as_str}

  -- A sign that the producer of a relay entry is past chain creation for the event.
  pub data PastEvidence (entry : Option Value) (event : Option String) (bs : List Beacon)
      : Type 0 where
    -- One of the reports, not only the freshest.
    reported : (b : Beacon) → In b bs → past_create b.report ≡ true → PastEvidence entry event bs
    -- The relay's high-water mark, which outlives the report.
    marked :
        (m : Value)
        → event_mark entry event ≡ some m
        → as_bool (index m "past_create") ≡ some true
        → PastEvidence entry event bs
    -- An observation in the relay's creation-evidence log.
    logged :
        (p o : Value)
        → entry ≡ some p
        → In o (log_evidence (index p "creation_evidence") event)
        → PastEvidence entry event bs

  report_past-ne-none : (b : Beacon) → past_create b.report ≡ true → report_past b ≡ none → ⊥
  unfolding report_past
  report_past-ne-none b h e = ground arith

  or_else-none : {A : Type 0} (a b : Option A) → or_else a b ≡ none → (a ≡ none) × (b ≡ none)
  or_else-none none b h = (refl, h)
  or_else-none (some a) b h = cc

  mark_past-ne-none :
      (m : Value) → as_bool (index m "past_create") ≡ some true → mark_past (some m) ≡ none → ⊥
  unfolding mark_past
  mark_past-ne-none m h e = cc (rw h at e)

  log_past-ne-none :
      (p o : Value) (event : Option String)
      → In o (log_evidence (index p "creation_evidence") event)
      → log_past (some p) event ≡ none
      → ⊥
  unfolding log_past
  log_past-ne-none p o event i e =
      let (y, f) = In-first (log_evidence (index p "creation_evidence") event) o i in ground arith

  past_of-ne-none :
      (entry : Option Value) (event : Option String) (bs : List Beacon)
      → PastEvidence entry event bs
      → past_of entry event bs ≡ none
      → ⊥
  unfolding past_of
  past_of-ne-none entry event bs (reported b i h) e =
      let a = or_else-none _ (find_map bs report_past) e in
      report_past-ne-none b h (All-In _ bs b (find_map-none bs report_past a.1) i)
  past_of-ne-none entry event bs (marked m k h) e =
      let a =
        or_else-none (or_else (mark_past (event_mark entry event)) (log_past entry event)) _ e in
      let b = or_else-none (mark_past (event_mark entry event)) _ a.0 in
      mark_past-ne-none m h (ap mark_past (sym k) ∙ b.0)
  past_of-ne-none entry event bs (logged p o k i) e =
      let a =
        or_else-none (or_else (mark_past (event_mark entry event)) (log_past entry event)) _ e in
      let b = or_else-none (mark_past (event_mark entry event)) _ a.0 in
      log_past-ne-none p o event i (ap (λ x. log_past x event) (sym k) ∙ b.1)

  wanted_roster :
      (prods : List Value) (co : Coordination) (rm : RosterMember)
      → In rm co.roster
      → wanted prods co ≡ co.roster
  unfolding wanted
  wanted_roster prods co rm i = elim (Bool-cases (is_empty co.roster)) [
    | inl e ↦ cc (e, In-is_empty co.roster rm i)
    | inr e ↦ rw e
  ]

  past_view :
      (prods : List Value) (co : Coordination) (rm : RosterMember)
      → (member_view prods co rm).max_past ≡ none
      → (let entry = entry_of prods rm.producer in
          past_of entry co.event_id (member_beacons entry co.event_id rm.instance_id) ≡ none)
  unfolding member_view
  past_view prods co rm h = h

  -- A roster member other than this node blocks the resume, whatever its freshest report says, with or
  -- without a signed abort, if the relay has a past-creation report of the member's instance (of any
  -- instance of its producer where the roster pins none), a past-creation high-water mark of the producer,
  -- or a creation-evidence observation of it that blocks.
  pub PastEvidence-resume_guard :
      (status : Value) (co : Coordination) (me : Option (String × String)) (signed_abort : Bool)
      (mem : FleetMemory) (rm : RosterMember)
      → In rm co.roster
      → is_self me (member_view (producers status co.network) co rm) ≡ false
      → (let entry = entry_of (producers status co.network) rm.producer in
          PastEvidence entry co.event_id (member_beacons entry co.event_id rm.instance_id))
      → is_err (resume_guard_with (some status) co me signed_abort mem) ≡ true
  unfolding members
  PastEvidence-resume_guard status co me signed_abort mem rm i other v =
      let prods = producers status co.network in
      let view = member_view prods co rm in
      elim (Bool-cases (is_err (resume_guard_with (some status) co me signed_abort mem))) [
        | inl e ↦ e
        | inr e ↦
            let s = resume_guard-ResumeSafe status co me signed_abort mem e in
            let listed : In view (members status co) =
              subst (λ l. In view (map (member_view prods co) l))
                (sym (wanted_roster prods co rm i))
                (In-map (member_view prods co) co.roster rm i) in
            let seen : In view (others me (members status co)) =
              In-filter (λ m. not (is_self me m)) (members status co) view listed (rw other) in
            absurd (
              past_of-ne-none _ _ _ v
                (past_view prods co rm (All-In _ _ view s.unreported_past seen)))
      ]
